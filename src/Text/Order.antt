-- ===== src/Text/Order.antt =====
-- Equality and order of texts.
use dockerdynomesh.Prelude.{
  ◌≡◌, refl, ◌≢◌, ◌↔◌, ap₂, true, false, List, [], ◌∷◌, arith, any, any_iff,
}
use mathlib.Core.List.{Memᴰ}
use dockerdynomesh.Prelude.Sort.{Order}
use dockerdynomesh.Text.{Text, ◌==◌, text_le}

==_true : (s t : Text) → (s == t) ≡ true → s ≡ t
unfolding ◌==◌
==_true [] [] h = refl
==_true [] (b ∷ t) h = cc
==_true (a ∷ s) [] h = cc
==_true (a ∷ s) (b ∷ t) h = ap₂ ◌∷◌ (ground arith) (==_true s t (ground arith))

pub ==_refl : (s : Text) → (s == s) ≡ true
unfolding ◌==◌
==_refl [] = refl
==_refl (a ∷ s) = ground (arith, ==_refl s)

pub ==_iff : (s t : Text) → ((s == t) ≡ true) ↔ (s ≡ t)
==_iff s t = (==_true s t, λ e. rw e (==_refl t))

pub ne_of_test : (s t : Text) → (s == t) ≡ false → s ≢ t
ne_of_test s t h e = cc (h, (==_iff s t).1 e)

-- The test for a member of a list of texts.
pub mem_of_any : (p : Text) (seen : List Text) → any (◌==◌ p) seen ≡ true → Memᴰ p seen
mem_of_any p seen h = let (q, m, e) = (any_iff (◌==◌ p) seen).0 h in rw ((==_iff p q).0 e) m

pub any_of_mem : (p : Text) (seen : List Text) → Memᴰ p seen → any (◌==◌ p) seen ≡ true
any_of_mem p seen m = (any_iff (◌==◌ p) seen).1 (p, m, ==_refl p)

pub not-mem_of_any : (p : Text) (seen : List Text) → any (◌==◌ p) seen ≡ false → ¬ Memᴰ p seen
not-mem_of_any p seen h m = cc (h, any_of_mem p seen m)

pub text_le-total : (s t : Text) → text_le s t ≡ false → text_le t s ≡ true
unfolding text_le
text_le-total [] t h = cc
text_le-total (a ∷ s) [] h = refl
text_le-total (a ∷ s) (b ∷ t) h = ground (arith, text_le-total s t)

pub text_le_trans : (s t u : Text) → text_le s t ≡ true → text_le t u ≡ true → text_le s u ≡ true
unfolding text_le
text_le_trans [] t u h k = refl
text_le_trans (a ∷ s) [] u h k = cc
text_le_trans (a ∷ s) (b ∷ t) [] h k = cc
text_le_trans (a ∷ s) (b ∷ t) (c ∷ u) h k = ground (arith, text_le_trans s t u)

pub text_le_antisymm : (s t : Text) → text_le s t ≡ true → text_le t s ≡ true → s ≡ t
unfolding text_le
text_le_antisymm [] [] h k = refl
text_le_antisymm [] (b ∷ t) h k = cc
text_le_antisymm (a ∷ s) [] h k = cc
text_le_antisymm (a ∷ s) (b ∷ t) h k =
    ap₂ ◌∷◌ (ground arith) (text_le_antisymm s t (ground arith) (ground arith))

instance abbrev pub text_order : Order Text
text_order = record {
  le = text_le;
  total = text_le-total;
  trans = text_le_trans;
  antisymm = text_le_antisymm;
}
