-- ===== src/Render/Hosts.antt =====
-- What a rule says to Traefik: its quoted host names.
use mathlib.Core.List.{Memᴰ, append_assoc, append-nil}
use dockerdynomesh.Prelude.{
  ℕ, ◌≡◌, refl, ap, ◌∙◌, true, false, ◌||◌, List, [], ◌∷◌, ◌++◌, map, All, eqb, arith, Option, none,
  some, Bool-cases, inl, inr, mem_map_inv,
}
use dockerdynomesh.Text.{Text, codes, is_empty, join}
use dockerdynomesh.Text.Label.{IsSafe, matches_label-IsSafe}
use dockerdynomesh.Certgen.San.{dotted}
use dockerdynomesh.Certgen.San.Labels.{IsSafe-dotted}
use dockerdynomesh.Text.Order.{text_order}
use dockerdynomesh.Prelude.Sort.{sort, mem-sort}
use dockerdynomesh.Prelude.Result.{ok}
use dockerdynomesh.Render.{
  Container, Config, RenderRouter, hostname_re, host_names, host_matcher, rule_of, router_of,
  render,
}
use dockerdynomesh.Render.Success.{all_routers, render_iff}

-- The texts between backquotes, from left to right. `some acc` stands for having read `acc` behind
-- an opening backquote.
quoted_from : Option Text → Text → List Text
quoted_from mode [] = []
quoted_from none (c ∷ s) = elim (eqb c b'`') [
  | true ↦ quoted_from (some []) s
  | false ↦ quoted_from none s
]
quoted_from (some acc) (c ∷ s) = elim (eqb c b'`') [
  | true ↦ acc ∷ quoted_from none s
  | false ↦ quoted_from (some (acc ++ (c ∷ []))) s
]

unfoldable pub quoted : Text → List Text
unfolding quoted_from
quoted = quoted_from none

no_backquote : (c : ℕ) → IsSafe c → eqb c b'`' ≡ false
no_backquote c h = ground arith

quoted_from-closed :
    (acc s rest : Text)
    → All IsSafe s
    → quoted_from (some acc) (s ++ (b'`' ∷ rest)) ≡ (acc ++ s) ∷ quoted_from none rest
unfolding quoted_from
quoted_from-closed acc [] rest h = rw append-nil
quoted_from-closed acc (c ∷ s) rest (h, k) =
    rw (no_backquote c h, quoted_from)
      (quoted_from-closed (acc ++ (c ∷ [])) s rest k
        ∙ ap (λ t. t ∷ quoted_from none rest) (append_assoc acc (c ∷ []) s))

quoted_from-host_matcher :
    (host rest : Text)
    → All IsSafe host
    → quoted_from none (host_matcher host ++ rest) ≡ host ∷ quoted_from none rest
unfolding quoted_from
quoted_from-host_matcher host rest h =
    rw (append_assoc host (codes "`)") rest) (quoted_from-closed [] host (codes ")" ++ rest) h)

quoted_from-join :
    (hosts : List Text)
    → All (All IsSafe) hosts
    → quoted_from none (join (codes " || ") (map host_matcher hosts)) ≡ hosts
unfolding join quoted_from
quoted_from-join [] h = refl
quoted_from-join (x ∷ []) (h, _) =
    rw (← append-nil (host_matcher x)) (quoted_from-host_matcher x [] h)
quoted_from-join (x ∷ y ∷ hosts) (h, k) =
    quoted_from-host_matcher x (codes " || " ++ join (codes " || ") (map host_matcher (y ∷ hosts)))
      h
    ∙ ap (◌∷◌ x) (quoted_from-join (y ∷ hosts) k)

-- The quoted parts of a rule are the host names that it was built from.
quoted-rule_of : (hosts : List Text) → All (All IsSafe) hosts → quoted (rule_of hosts) ≡ hosts
unfolding quoted rule_of
quoted-rule_of = quoted_from-join

IsSafe-local :
    (host : Text) (suffixes : List Text)
    → All IsSafe host
    → ((s : Text) → Memᴰ s suffixes → hostname_re s ≡ true)
    → (rest : List Text) → All (All IsSafe) rest
    → All (All IsSafe) (map (dotted host) suffixes ++ rest)
IsSafe-local host [] h k rest r = r
IsSafe-local host (s ∷ suffixes) h k rest r = (
  IsSafe-dotted host s h (matches_label-IsSafe s (k s (Memᴰ.head refl))),
  IsSafe-local host suffixes h (λ t m. k t (Memᴰ.tail m)) rest r,
)

IsSafe-of_given :
    (s : Text) → (is_empty s || hostname_re s) ≡ true → is_empty s ≡ false → All IsSafe s
IsSafe-of_given s h e = matches_label-IsSafe s (ground arith)

pub IsSafe-host_names :
    (suffixes : List Text) (machine tailnet host : Text)
    → All IsSafe host
    → ((s : Text) → Memᴰ s suffixes → hostname_re s ≡ true)
    → (is_empty machine || hostname_re machine) ≡ true
    → (is_empty tailnet || hostname_re tailnet) ≡ true
    → All (All IsSafe) (host_names suffixes machine tailnet host)
unfolding host_names
IsSafe-host_names suffixes machine tailnet host h k m t = elim (Bool-cases (is_empty machine)) [
  | inl e ↦ rw e (IsSafe-local host suffixes h k [] tt)
  | inr e ↦ elim (Bool-cases (is_empty tailnet)) [
    | inl f ↦ rw (e, f) (IsSafe-local host suffixes h k [] tt)
    | inr f ↦
        let base =
          IsSafe-dotted machine tailnet (IsSafe-of_given machine m e)
            (IsSafe-of_given tailnet t f) in
        rw (e, f)
          (IsSafe-local host suffixes h k _
            (IsSafe-dotted host (dotted machine tailnet) h base, tt))
  ]
]

-- If `Render` returns a text, the quoted parts of the rule of every router are exactly the host
-- names of one of the containers: no label, name or suffix can add a matcher to a rule.
pub quoted-router :
    (sort_slice : List RenderRouter → List RenderRouter) (cfg : Config) (yaml : Text)
    → render sort_slice cfg ≡ ok yaml
    → (r : RenderRouter) → Memᴰ r (all_routers cfg)
    → (c : Container) × Memᴰ c cfg.containers
      × (quoted r.rule
          ≡ host_names (sort cfg.suffixes) cfg.machine_name cfg.tailnet_domain c.hostname)
quoted-router sort_slice cfg yaml h r m =
    let (valid, _) = (render_iff sort_slice cfg yaml).0 h in
    let build = router_of (sort cfg.suffixes) cfg.machine_name cfg.tailnet_domain in
    let (c, k, e) = mem_map_inv build cfg.containers m in
    let hosts = host_names (sort cfg.suffixes) cfg.machine_name cfg.tailnet_domain c.hostname in
    (
      c,
      k,
      ap (λ (x : RenderRouter). quoted x.rule) e
          ∙ quoted-rule_of hosts (
              IsSafe-host_names (sort cfg.suffixes) cfg.machine_name cfg.tailnet_domain c.hostname
                (matches_label-IsSafe c.hostname (valid.containers c k).safe)
                (λ s n. valid.suffixes s ((mem-sort cfg.suffixes).0 n)) valid.machine
                valid.tailnet),
    )
