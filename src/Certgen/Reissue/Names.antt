-- ===== src/Certgen/Reissue/Names.antt =====
-- The names of the certificate on disk behind a reissue.
use mathlib.Core.List.{Permᴰ}
use dockerdynomesh.Prelude.{
  ℕ, ◌≡◌, refl, ap, subst, ◌∙◌, Bool, true, false, List, some, Bool-cases, inl, inr,
}
use dockerdynomesh.Prelude.Sort.{IsSorted, sort, sort_of_perm, sort_of_IsSorted}
use dockerdynomesh.Text.{Text}
use dockerdynomesh.Text.Order.{text_order}
use dockerdynomesh.Files.{Files, tmp_of}
use dockerdynomesh.Certgen.Reissue.{
  CertInfo, Reissuer, Tools, ReissueError, mkdir_cert, mkdir_key, mkcert_failed, rename_key,
  rename_cert, Reissued, reissued, failed, current_sans, up_to_date, rename_both, issue, clean,
  reissue,
}
use dockerdynomesh.Certgen.Reissue.Branches.{
  HasDistinctPaths, WritesOnlyTemporaries, made, Leaves, reissue-Leaves,
}
use dockerdynomesh.Certgen.Reissue.Laws.{noop_iff}

module _ {A : Type 0} (tools : Tools A) (r : Reissuer) where
  -- Where mkcert succeeds, the file that its flag names holds a certificate for its arguments.
  pub record MakesCertificate : Type 0 where
    pub makes :
        (sans : List Text) (fs : Files A)
        → (made tools r sans fs).0 ≡ true
        → (content : A) × (info : CertInfo) × ((made tools r sans fs).1 (tmp_of r.cert_path)
            ≡ some content)
          × (tools.parse content ≡ some info)
          × Permᴰ info.sans sans

  -- The certificate on disk has these names, in whatever order.
  pub record HasNames (sans : List Text) (fs : Files A) : Type 0 where
    pub content : A
    pub info : CertInfo
    pub at_path : fs r.cert_path ≡ some content
    pub parsed : tools.parse content ≡ some info
    pub same_names : sort info.sans ≡ sans

  -- They stay while the file stays.
  pub HasNames-of_same :
      (sans : List Text) (fs gs : Files A)
      → gs r.cert_path ≡ fs r.cert_path
      → HasNames sans fs
      → HasNames sans gs
  HasNames-of_same sans fs gs e h = record {
    content = h.content;
    info = h.info;
    at_path = e ∙ h.at_path;
    parsed = h.parsed;
    same_names = h.same_names;
  }

  made_of_both :
      (b : Bool) (ms : Files A)
      → (clean tools r (rename_both tools r (b, ms))).0 ≡ reissued true
      → b ≡ true
  unfolding rename_both
  made_of_both false ms h = cc
  made_of_both true ms h = refl

  made_of_reissued :
      (now : ℕ) (sans : List Text) (fs : Files A)
      → (reissue tools now r sans fs).0 ≡ reissued true
      → (made tools r sans fs).0 ≡ true
  unfolding reissue issue
  made_of_reissued now sans fs h =
      elim (Bool-cases (up_to_date tools now sans (current_sans tools r fs))) [
        | inl e ↦ cc (rw e at h)
        | inr e ↦ elim (Bool-cases (tools.mkdir_works (tools.dir r.cert_path))) [
          | inr f ↦ cc (rw (e, f) at h)
          | inl f ↦ elim (Bool-cases (tools.mkdir_works (tools.dir r.key_path))) [
            | inr g ↦ cc (rw (e, f, g) at h)
            | inl g ↦
                made_of_both (made tools r sans fs).0 (made tools r sans fs).1 (rw (e, f, g) at h)
          ]
        ]
      ]

  module _ (paths : HasDistinctPaths r) (only : WritesOnlyTemporaries tools r) where
    Leaves-of :
        (now : ℕ) (sans : List Text) (fs : Files A) (result : Reissued)
        → (reissue tools now r sans fs).0 ≡ result
        → Leaves tools r fs (made tools r sans fs).1 (reissue tools now r sans fs).1 result
    Leaves-of now sans fs result h =
        subst (Leaves tools r fs (made tools r sans fs).1 (reissue tools now r sans fs).1) h
          (reissue-Leaves tools r paths only now sans fs)

    -- A reissue that fails leaves the certificate as it was.
    pub cert_path-failed :
        (now : ℕ) (sans : List Text) (fs : Files A) (e : ReissueError)
        → (reissue tools now r sans fs).0 ≡ failed e
        → (reissue tools now r sans fs).1 r.cert_path ≡ fs r.cert_path
    cert_path-failed now sans fs mkdir_cert h =
        ap (λ (x : Files A). x r.cert_path) (Leaves-of now sans fs _ h)
    cert_path-failed now sans fs mkdir_key h =
        ap (λ (x : Files A). x r.cert_path) (Leaves-of now sans fs _ h)
    cert_path-failed now sans fs mkcert_failed h = (Leaves-of now sans fs _ h).0
    cert_path-failed now sans fs rename_key h = (Leaves-of now sans fs _ h).0
    cert_path-failed now sans fs rename_cert h = (Leaves-of now sans fs _ h).0

    -- Behind a reissue that does not fail the certificate on disk has the requested names.
    pub reissued-HasNames :
        MakesCertificate
        → (now : ℕ) (sans : List Text) (fs : Files A) (wrote : Bool) → IsSorted sans
        → (reissue tools now r sans fs).0 ≡ reissued wrote
        → HasNames sans (reissue tools now r sans fs).1
    reissued-HasNames makes now sans fs false sorted h =
        let c = (noop_iff tools r now sans fs).0 h in
        HasNames-of_same sans fs (reissue tools now r sans fs).1
          (ap (λ (x : Files A). x r.cert_path) (Leaves-of now sans fs _ h))
          (record {
            content = c.content;
            info = c.info;
            at_path = c.at_path;
            parsed = c.parsed;
            same_names = c.same_names;
          })
    reissued-HasNames makes now sans fs true sorted h =
        let (content, info, wrote, parsed, names) =
          makes.makes sans fs (made_of_reissued now sans fs h) in
        record {
          content = content;
          info = info;
          at_path = (Leaves-of now sans fs _ h).0 ∙ wrote;
          parsed = parsed;
          same_names = sort_of_perm names ∙ sort_of_IsSorted sans sorted;
        }
