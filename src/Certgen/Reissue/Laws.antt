-- ===== src/Certgen/Reissue/Laws.antt =====
-- When a reissue is a no-op, and that a second one is.
use mathlib.Core.List.{Permᴰ}
use dockerdynomesh.Prelude.{
  ℕ, ◌+◌, ◌<◌, ◌≡◌, refl, ap, ap₂, subst, ◌∙◌, ◌≢◌, ◌↔◌, Bool, true, false, List, [], ◌∷◌, Option,
  none, some, Bool-cases, inl, inr, ltb, arith,
}
use dockerdynomesh.Prelude.Sort.{IsSorted, sort, sort_of_perm, sort_of_IsSorted}
use dockerdynomesh.Text.{Text}
use dockerdynomesh.Text.Order.{text_order, ==_iff, ==_refl}
use dockerdynomesh.Files.{Files, tmp_of}
use dockerdynomesh.Certgen.Reissue.{
  CertInfo, Reissuer, Tools, reissued, sans_equal, thirty_days, sorted_info, parse_file,
  current_sans, up_to_date, rename_both, rename_first, rename_second, commit, issue, clean, reissue,
}
use dockerdynomesh.Certgen.Reissue.Branches.{
  HasDistinctPaths, WritesOnlyTemporaries, made, Leaves, reissue-Leaves,
}

pub sans_equal-true : (xs ys : List Text) → sans_equal xs ys ≡ true → xs ≡ ys
unfolding sans_equal
sans_equal-true [] [] h = refl
sans_equal-true [] (y ∷ ys) h = cc
sans_equal-true (x ∷ xs) [] h = cc
sans_equal-true (x ∷ xs) (y ∷ ys) h =
    ap₂ ◌∷◌ ((==_iff x y).0 (ground arith)) (sans_equal-true xs ys (ground arith))

pub sans_equal_refl : (xs : List Text) → sans_equal xs xs ≡ true
unfolding sans_equal
sans_equal_refl [] = refl
sans_equal_refl (x ∷ xs) = rw (==_refl x, sans_equal_refl xs)

module _ {A : Type 0} (tools : Tools A) (r : Reissuer) where
  -- The certificate on disk has these names, in whatever order, and is good for over 30 days.
  pub record IsCurrent (now : ℕ) (sans : List Text) (fs : Files A) : Type 0 where
    pub content : A
    pub info : CertInfo
    pub at_path : fs r.cert_path ≡ some content
    pub parsed : tools.parse content ≡ some info
    pub same_names : sort info.sans ≡ sans
    pub fresh : now + thirty_days < info.not_after

  up_to_date_of_IsCurrent :
      (now : ℕ) (sans : List Text) (fs : Files A)
      → IsCurrent now sans fs
      → up_to_date tools now sans (current_sans tools r fs) ≡ true
  unfolding up_to_date current_sans parse_file sorted_info
  up_to_date_of_IsCurrent now sans fs c =
      let in_time : ltb (now + thirty_days) c.info.not_after ≡ true = ground (arith, c.fresh) in
      rw (c.at_path, c.parsed, c.same_names, sans_equal_refl sans, in_time)

  IsCurrent-of_parse :
      (now : ℕ) (sans : List Text) (fs : Files A) (content : A) (o : Option CertInfo)
      → fs r.cert_path ≡ some content
      → tools.parse content ≡ o
      → up_to_date tools now sans (sorted_info tools o) ≡ true
      → IsCurrent now sans fs
  unfolding up_to_date sorted_info
  IsCurrent-of_parse now sans fs content none e p h = cc
  IsCurrent-of_parse now sans fs content (some info) e p h = record {
    content = content;
    info = info;
    at_path = e;
    parsed = p;
    same_names = sans_equal-true (sort info.sans) sans (ground arith);
    fresh = ground arith;
  }

  IsCurrent-of_file :
      (now : ℕ) (sans : List Text) (fs : Files A) (o : Option A)
      → fs r.cert_path ≡ o
      → up_to_date tools now sans (parse_file tools o) ≡ true
      → IsCurrent now sans fs
  unfolding parse_file up_to_date
  IsCurrent-of_file now sans fs none e h = cc
  IsCurrent-of_file now sans fs (some content) e h =
      IsCurrent-of_parse now sans fs content (tools.parse content) e refl h

  IsCurrent-of_up_to_date :
      (now : ℕ) (sans : List Text) (fs : Files A)
      → up_to_date tools now sans (current_sans tools r fs) ≡ true
      → IsCurrent now sans fs
  unfolding current_sans
  IsCurrent-of_up_to_date now sans fs h = IsCurrent-of_file now sans fs (fs r.cert_path) refl h

  pub reissue_current :
      (now : ℕ) (sans : List Text) (fs : Files A)
      → IsCurrent now sans fs
      → reissue tools now r sans fs ≡ (reissued false, fs)
  unfolding reissue
  reissue_current now sans fs c = rw (up_to_date_of_IsCurrent now sans fs c)

  not_false_of_second :
      (gs : Files A) (o : Option (Files A))
      → (clean tools r (rename_second tools r gs o)).0 ≢ reissued false
  unfolding rename_second
  not_false_of_second gs none e = cc
  not_false_of_second gs (some hs) e = ground arith

  not_false_of_first :
      (gs : Files A) (o : Option (Files A))
      → (clean tools r (rename_first tools r gs o)).0 ≢ reissued false
  unfolding rename_first
  not_false_of_first gs none e = cc
  not_false_of_first gs (some hs) e =
      not_false_of_second hs (commit tools hs (tmp_of r.cert_path) r.cert_path) e

  not_false_of_both :
      (b : Bool) (gs : Files A) → (clean tools r (rename_both tools r (b, gs))).0 ≢ reissued false
  unfolding rename_both
  not_false_of_both false gs e = cc
  not_false_of_both true gs e =
      not_false_of_first gs (commit tools gs (tmp_of r.key_path) r.key_path) e

  IsCurrent-of_noop :
      (now : ℕ) (sans : List Text) (fs : Files A)
      → (reissue tools now r sans fs).0 ≡ reissued false
      → IsCurrent now sans fs
  unfolding reissue issue
  IsCurrent-of_noop now sans fs h =
      elim (Bool-cases (up_to_date tools now sans (current_sans tools r fs))) [
        | inl e ↦ IsCurrent-of_up_to_date now sans fs e
        | inr e ↦ elim (Bool-cases (tools.mkdir_works (tools.dir r.cert_path))) [
          | inr f ↦ cc (rw (e, f) at h)
          | inl f ↦ elim (Bool-cases (tools.mkdir_works (tools.dir r.key_path))) [
            | inr g ↦ cc (rw (e, f, g) at h)
            | inl g ↦ absurd (
                not_false_of_both (made tools r sans fs).0 (made tools r sans fs).1
                  (rw (e, f, g) at h))
          ]
        ]
      ]

  -- A reissue reports that it did nothing exactly when the certificate on disk has the requested
  -- names and is more than 30 days from its expiry.
  pub noop_iff :
      (now : ℕ) (sans : List Text) (fs : Files A)
      → ((reissue tools now r sans fs).0 ≡ reissued false) ↔ IsCurrent now sans fs
  noop_iff now sans fs =
      (IsCurrent-of_noop now sans fs, λ c. ap (λ p. p.0) (reissue_current now sans fs c))

  -- Where the paths differ and mkcert writes to the temporary files alone: after a reissue that
  -- wrote a certificate with the requested names, which are in ascending order, the same request
  -- changes nothing, as long as that certificate is more than 30 days from its expiry.
  pub reissue_twice :
      HasDistinctPaths r
      → WritesOnlyTemporaries tools r
      → (now later : ℕ) (sans : List Text) (fs : Files A) (content : A) (info : CertInfo)
      → (reissue tools now r sans fs).0 ≡ reissued true
      → (made tools r sans fs).1 (tmp_of r.cert_path) ≡ some content
      → tools.parse content ≡ some info
      → Permᴰ info.sans sans
      → IsSorted sans
      → later + thirty_days < info.not_after
      → let gs = (reissue tools now r sans fs).1 in
        reissue tools later r sans gs ≡ (reissued false, gs)
  reissue_twice paths only now later sans fs content info done wrote parsed names sorted fresh =
      let after =
        subst (Leaves tools r fs (made tools r sans fs).1 (reissue tools now r sans fs).1) done
          (reissue-Leaves tools r paths only now sans fs) in
      reissue_current later sans (reissue tools now r sans fs).1 (record {
        content = content;
        info = info;
        at_path = after.0 ∙ wrote;
        parsed = parsed;
        same_names = sort_of_perm names ∙ sort_of_IsSorted sans sorted;
        fresh = fresh;
      })
