-- ===== src/Welcome/Serving/Counted.antt =====
-- What the counters of the wait groups count, and how far the two loops are.
use dockerdynomesh.Prelude.{
  ℕ, zero, suc, ◌+◌, ◌≡◌, refl, sym, ap, ◌∙◌, Bool, true, false, List, [], ◌∷◌, ◌++◌, map, length,
  none, some, ltb, arith,
}
use mathlib.Core.Option.{some-injective}
use dockerdynomesh.Text.{Text}
use dockerdynomesh.Welcome.Serving.{
  Serve, serving, served, Shut, untouched, shutting, shut_down, HttpServer, Main, starting,
  awaiting, stopping, joining_shutdowns, joining_serves, returned, Process, serve_ends,
  shutdown_ends,
}
use dockerdynomesh.Welcome.Serving.Tally.{tally}

-- The goroutines of a server that are at work.
abbrev pub runs : HttpServer → ℕ
runs s = elim s.serve [ serving ↦ 1 | served ↦ 0 ]

abbrev pub closes : HttpServer → ℕ
closes s = elim s.shut [ untouched ↦ 0 | shutting ↦ 1 | shut_down ↦ 0 ]

abbrev pub is_touched : HttpServer → Bool
is_touched s = elim s.shut [ untouched ↦ false | shutting ↦ true | shut_down ↦ true ]

-- The first `k` of the flags are true, and no other.
abbrev pub Launched : ℕ → List Bool → Type 0
Launched k [] = k ≡ 0
Launched zero (flag ∷ flags) = (flag ≡ false) × Launched zero flags
Launched (suc k) (flag ∷ flags) = (flag ≡ true) × Launched k flags

-- How many of the `n` servers the second loop has behind it, by the place of the main goroutine.
abbrev pub launched : Main → ℕ → ℕ
launched (starting rest) n = 0
launched awaiting n = 0
launched (stopping k) n = k
launched _ n = n

-- The listeners that the first loop has in front of it.
abbrev pub unserved : Main → List Text
unserved (starting rest) = rest
unserved _ = []

-- What the main goroutine has waited for.
abbrev pub Awaited : Process → Main → Type 0
Awaited p (starting rest) = Unit
Awaited p awaiting = Unit
Awaited p (stopping k) = p.signalled ≡ true
Awaited p joining_shutdowns = p.signalled ≡ true
Awaited p joining_serves = (p.signalled ≡ true) × (p.sg ≡ 0)
Awaited p returned = (p.signalled ≡ true) × (p.sg ≡ 0) × (p.wg ≡ 0)

-- At the place `m` of the main goroutine.
pub record IsCounted (listeners : List Text) (m : Main) (p : Process) : Type 0 where
  pub by_wg : p.wg ≡ tally runs p.servers
  pub by_sg : p.sg ≡ tally closes p.servers
  pub in_order : map HttpServer.address p.servers ++ unserved m ≡ listeners
  pub by_launch : Launched (launched m (length p.servers)) (map is_touched p.servers)
  pub behind : Awaited p m

pub Launched-snoc : (flags : List Bool) → Launched 0 flags → Launched 0 (flags ++ (false ∷ []))
Launched-snoc [] l = (refl, refl)
Launched-snoc (f ∷ flags) (e, l) = (e, Launched-snoc flags l)

pub all-Launched :
    (k : ℕ) (flags : List Bool) → Launched k flags → ltb k (length flags) ≡ false → k ≡ length flags
all-Launched k [] l h = l
all-Launched zero (f ∷ flags) l h = absurd (ground arith)
all-Launched (suc k) (f ∷ flags) (e, l) h = ap suc (all-Launched k flags l (ground arith))

pub serve_ends-some :
    (s : HttpServer) (v : Serve) {t : HttpServer}
    → elim v [ serving ↦ some (record s { serve = served }) | served ↦ none ] ≡ some t
    → (v ≡ serving) × (record s { serve = served } ≡ t)
serve_ends-some s serving h = (refl, some-injective _ _ h)
serve_ends-some s served h = cc

pub shutdown_ends-some :
    (s : HttpServer) (v : Shut) {t : HttpServer}
    → elim v [
      | shutting ↦ some (record s { shut = shut_down })
      | untouched ↦ none
      | shut_down ↦ none
    ]
      ≡ some t
    → (v ≡ shutting) × (record s { shut = shut_down } ≡ t)
shutdown_ends-some s shutting h = (refl, some-injective _ _ h)
shutdown_ends-some s untouched h = cc
shutdown_ends-some s shut_down h = cc

-- What the end of `Serve`, or of `Shutdown`, leaves of a server, where `g` does not look at it.
pub serve_ends-keeps :
    {B : Type 0} (g : HttpServer → B)
    → ((s : HttpServer) → g (record s { serve = served }) ≡ g s)
    → (s t : HttpServer) → serve_ends s ≡ some t
    → g t ≡ g s
serve_ends-keeps g h s t e = ap g (sym (serve_ends-some s s.serve e).1) ∙ h s

pub shutdown_ends-keeps :
    {B : Type 0} (g : HttpServer → B)
    → ((s : HttpServer) → s.shut ≡ shutting → g (record s { shut = shut_down }) ≡ g s)
    → (s t : HttpServer) → shutdown_ends s ≡ some t
    → g t ≡ g s
shutdown_ends-keeps g h s t e = let (v, k) = shutdown_ends-some s s.shut e in ap g (sym k) ∙ h s v

pub serve_ends-runs : (s t : HttpServer) → serve_ends s ≡ some t → runs t + 1 ≡ runs s + 0
serve_ends-runs s t e = let (v, k) = serve_ends-some s s.serve e in rw (sym k, v) refl

pub shutdown_ends-closes :
    (s t : HttpServer) → shutdown_ends s ≡ some t → closes t + 1 ≡ closes s + 0
shutdown_ends-closes s t e = let (v, k) = shutdown_ends-some s s.shut e in rw (sym k, v) refl
