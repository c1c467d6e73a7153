-- ===== src/Certgen/Server/Ways.antt =====
-- Each thread stays on the way of its request.
use dockerdynomesh.Prelude.{ℕ, ◌≡◌, refl, sym, subst, Option, none, some, Bool-cases, inl, inr}
use dockerdynomesh.Files.{Files}
use dockerdynomesh.Certgen.Reissue.{Reissuer, Tools}
use dockerdynomesh.Certgen.Api.{ReissueRequest, Response}
use dockerdynomesh.Certgen.Server.{
  Call, Locked, entered, running, renaming_key, renaming_cert, removing_key, removing_cert, leaving,
  Pc, arrived, waiting, inside, answered, System, update, is_free, entry, advance, moved, move,
}
use dockerdynomesh.Certgen.Server.Alone.{Entry, entry-Entry, rest, rest-entered, rest-advance}
use dockerdynomesh.Certgen.Server.Exclusion.{split_at, update_self, update_ne}
use dockerdynomesh.Certgen.Server.Serial.{OnTheWay}

module _ {A Wire : Type 0} (tools : Tools A) (decode : ℕ → Wire → Option ReissueRequest)
    (r : Reissuer) (calls : ℕ → Call Wire) where
  -- Every thread is on the way of its request.
  abbrev pub Ways : System A Wire → Type 0
  Ways s = (i : ℕ) → OnTheWay tools decode r (calls i) (s.pc i)

  pub way_at :
      (s : System A Wire) (i : ℕ) (p : Pc Wire)
      → Ways s
      → s.pc i ≡ p
      → OnTheWay tools decode r (calls i) p
  way_at s i p w e = subst (OnTheWay tools decode r (calls i)) e (w i)

  Ways-update :
      (s : System A Wire) (fs : Files A) (o : Option ℕ) (i : ℕ) (p : Pc Wire)
      → Ways s
      → OnTheWay tools decode r (calls i) p
      → Ways (record { files = fs; owner = o; pc = update s.pc i p })
  Ways-update s fs o i p w h =
      split_at i (subst (OnTheWay tools decode r (calls i)) (sym (update_self s.pc i p)) h)
        (λ j n. subst (OnTheWay tools decode r (calls j)) (sym (update_ne s.pc i j p n)) (w j))

  OnTheWay-Entry :
      (c : Call Wire) {p : Pc Wire} → Entry tools decode r c p → OnTheWay tools decode r c p
  OnTheWay-Entry c (Entry.refused h) = tt
  OnTheWay-Entry c (Entry.queued h) = h

  OnTheWay-begun :
      (c : Call Wire) (o : Locked × Files A) {x : Response × Files A}
      → rest tools decode r o.0 o.1 ≡ some x
      → OnTheWay tools decode r c (inside o.0)
  OnTheWay-begun c (entered job, fs) h = cc
  OnTheWay-begun c (running sans, fs) h = tt
  OnTheWay-begun c (renaming_key sans, fs) h = tt
  OnTheWay-begun c (renaming_cert sans, fs) h = tt
  OnTheWay-begun c (removing_key sans result, fs) h = tt
  OnTheWay-begun c (removing_cert sans result, fs) h = tt
  OnTheWay-begun c (leaving response, fs) h = tt

  Ways-advance :
      (now i : ℕ) (s : System A Wire) (q : Locked) {x : Response × Files A}
      → Ways s
      → rest tools decode r
          (advance tools decode r now q s.files).0
          (advance tools decode r now q s.files).1
        ≡ some x
      → Ways (moved tools decode r i s (advance tools decode r now q s.files))
  Ways-advance now i s q w h =
      let o = advance tools decode r now q s.files in
      Ways-update s o.1 s.owner i (inside o.0) w (OnTheWay-begun (calls i) o h)

  pub move-Ways :
      (now i : ℕ) (s : System A Wire) (p : Pc Wire)
      → Ways s
      → s.pc i ≡ p
      → Ways (move tools decode r now i s p)
  move-Ways now i s (arrived c) w e = Ways-update s s.files s.owner i (entry tools decode r c) w (
      OnTheWay-Entry (calls i) (
        subst (λ d. Entry tools decode r d (entry tools decode r c)) (way_at s i (arrived c) w e)
          (entry-Entry tools decode r c)))
  move-Ways now i s (waiting job) w e = elim (Bool-cases (is_free s.owner)) [
    | inl f ↦
        rw f
          (Ways-update s s.files (some i) i (inside (entered job)) w (way_at s i (waiting job) w e))
    | inr f ↦ rw f w
  ]
  move-Ways now i s (inside (entered job)) w e =
      Ways-advance now i s (entered job) w (rest-entered tools decode r now job s.files)
  move-Ways now i s (inside (running sans)) w e =
      Ways-advance now i s (running sans) w
        (rest-advance tools decode r now (running sans) s.files refl)
  move-Ways now i s (inside (renaming_key sans)) w e =
      Ways-advance now i s (renaming_key sans) w
        (rest-advance tools decode r now (renaming_key sans) s.files refl)
  move-Ways now i s (inside (renaming_cert sans)) w e =
      Ways-advance now i s (renaming_cert sans) w
        (rest-advance tools decode r now (renaming_cert sans) s.files refl)
  move-Ways now i s (inside (removing_key sans result)) w e =
      Ways-advance now i s (removing_key sans result) w
        (rest-advance tools decode r now (removing_key sans result) s.files refl)
  move-Ways now i s (inside (removing_cert sans result)) w e =
      Ways-advance now i s (removing_cert sans result) w
        (rest-advance tools decode r now (removing_cert sans result) s.files refl)
  move-Ways now i s (inside (leaving response)) w e =
      Ways-update s s.files none i (answered response) w tt
  move-Ways now i s (answered response) w e = w
