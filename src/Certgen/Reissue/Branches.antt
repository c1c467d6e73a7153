-- ===== src/Certgen/Reissue/Branches.antt =====
-- What the files hold after a reissue, on each of its branches.
use dockerdynomesh.Prelude.{
  ℕ, ◌≡◌, refl, sym, ap, ◌∙◌, ◌≢◌, Bool, true, false, List, Option, none, some, Bool-cases, inl,
  inr,
}
use mathlib.Core.Option.{none-ne-some}
use dockerdynomesh.Text.{Text}
use dockerdynomesh.Files.{Files, tmp_of, put, remove, rename_inv, put_self, put_ne}
use dockerdynomesh.Certgen.Reissue.{
  Reissuer, Tools, mkdir_cert, mkdir_key, mkcert_failed, rename_key, rename_cert, Reissued,
  reissued, failed, current_sans, up_to_date, commit, cleanup, arguments, binary, rename_both,
  rename_first, rename_second, issue, clean, reissue,
}

-- The four paths are four files.
pub record HasDistinctPaths (r : Reissuer) : Type 0 where
  pub cert_key : r.cert_path ≢ r.key_path
  pub cert_tmp : r.cert_path ≢ tmp_of r.cert_path
  pub cert_tmp_key : r.cert_path ≢ tmp_of r.key_path
  pub key_tmp : r.key_path ≢ tmp_of r.key_path
  pub key_tmp_cert : r.key_path ≢ tmp_of r.cert_path
  pub tmp_tmp : tmp_of r.cert_path ≢ tmp_of r.key_path

module _ {A : Type 0} (tools : Tools A) (r : Reissuer) where
  -- mkcert writes to the two files that its flags name, and to no other.
  pub record WritesOnlyTemporaries : Type 0 where
    pub keeps :
        (sans : List Text) (fs : Files A) (p : Text)
        → p ≢ tmp_of r.cert_path
        → p ≢ tmp_of r.key_path
        → (tools.mkcert (binary tools r) r.ca_root_dir (arguments tools r sans) fs).1 p ≡ fs p

  -- The files that mkcert leaves.
  abbrev pub made : List Text → Files A → Bool × Files A
  made sans fs = tools.mkcert (binary tools r) r.ca_root_dir (arguments tools r sans) fs

  -- Nothing is at the temporary paths.
  abbrev pub NoTemporaries : Files A → Type 0
  NoTemporaries gs = (gs (tmp_of r.cert_path) ≡ none) × (gs (tmp_of r.key_path) ≡ none)

  -- The files `gs` behind each result of a reissue that began with `fs`, where mkcert left `ms`.
  abbrev pub Leaves : Files A → Files A → Files A → Reissued → Type 0
  Leaves fs ms gs (reissued true) =
      (gs r.cert_path ≡ ms (tmp_of r.cert_path))
      × (gs r.key_path ≡ ms (tmp_of r.key_path))
      × NoTemporaries gs
  Leaves fs ms gs (reissued false) = gs ≡ fs
  Leaves fs ms gs (failed mkdir_cert) = gs ≡ fs
  Leaves fs ms gs (failed mkdir_key) = gs ≡ fs
  Leaves fs ms gs (failed mkcert_failed) =
      (gs r.cert_path ≡ fs r.cert_path) × (gs r.key_path ≡ fs r.key_path) × NoTemporaries gs
  Leaves fs ms gs (failed rename_key) =
      (gs r.cert_path ≡ fs r.cert_path) × (gs r.key_path ≡ fs r.key_path) × NoTemporaries gs
  Leaves fs ms gs (failed rename_cert) =
      (gs r.cert_path ≡ fs r.cert_path)
      × (gs r.key_path ≡ ms (tmp_of r.key_path))
      × NoTemporaries gs

  commit_inv :
      (fs : Files A) (old new : Text) {gs : Files A}
      → commit tools fs old new ≡ some gs
      → (content : A) × (fs old ≡ some content) × (gs ≡ put (remove fs old) new (some content))
  unfolding commit
  commit_inv fs old new h = elim (Bool-cases (tools.rename_works old new)) [
    | inl e ↦ rename_inv fs old new (rw e at h)
    | inr e ↦ absurd (none-ne-some _ (rw e at h))
  ]

  module _ (paths : HasDistinctPaths r) where
    cleanup-NoTemporaries : (gs : Files A) → NoTemporaries (cleanup tools r gs)
    cleanup-NoTemporaries gs = (
      put_self (remove gs (tmp_of r.key_path)) (tmp_of r.cert_path) none,
      put_ne (remove gs (tmp_of r.key_path)) (tmp_of r.cert_path) (tmp_of r.key_path) none
            (λ e. paths.tmp_tmp (sym e))
          ∙ put_self gs (tmp_of r.key_path) none,
    )

    cleanup_cert : (gs : Files A) → cleanup tools r gs r.cert_path ≡ gs r.cert_path
    cleanup_cert gs =
        put_ne (remove gs (tmp_of r.key_path)) (tmp_of r.cert_path) r.cert_path none paths.cert_tmp
        ∙ put_ne gs (tmp_of r.key_path) r.cert_path none paths.cert_tmp_key

    cleanup_key : (gs : Files A) → cleanup tools r gs r.key_path ≡ gs r.key_path
    cleanup_key gs =
        put_ne (remove gs (tmp_of r.key_path)) (tmp_of r.cert_path) r.key_path none
          paths.key_tmp_cert
        ∙ put_ne gs (tmp_of r.key_path) r.key_path none paths.key_tmp

    module _ (fs ms : Files A) (keeps_cert : ms r.cert_path ≡ fs r.cert_path)
        (keeps_key : ms r.key_path ≡ fs r.key_path) where
      abbrev LeavesPair : Reissued × Files A → Type 0
      LeavesPair (result, gs) = Leaves fs ms gs result

      after_second :
          (gs : Files A)
          → gs r.cert_path ≡ ms r.cert_path
          → gs (tmp_of r.cert_path) ≡ ms (tmp_of r.cert_path)
          → gs r.key_path ≡ ms (tmp_of r.key_path)
          → (o : Option (Files A)) → commit tools gs (tmp_of r.cert_path) r.cert_path ≡ o
          → LeavesPair (clean tools r (rename_second tools r gs o))
      unfolding rename_second
      after_second gs c t k none e =
          (cleanup_cert gs ∙ c ∙ keeps_cert, cleanup_key gs ∙ k, cleanup-NoTemporaries gs)
      after_second gs c t k (some hs) e =
          let (content, x, y) = commit_inv gs (tmp_of r.cert_path) r.cert_path e in
          let gone = remove gs (tmp_of r.cert_path) in
          (
            cleanup_cert hs
                ∙ ap (λ (z : Files A). z r.cert_path) y
                ∙ put_self gone r.cert_path (some content)
                ∙ sym x
                ∙ t,
            cleanup_key hs
                ∙ ap (λ (z : Files A). z r.key_path) y
                ∙ put_ne gone r.cert_path r.key_path (some content) (λ q. paths.cert_key (sym q))
                ∙ put_ne gs (tmp_of r.cert_path) r.key_path none paths.key_tmp_cert
                ∙ k,
            cleanup-NoTemporaries hs,
          )

      after_first :
          (o : Option (Files A))
          → commit tools ms (tmp_of r.key_path) r.key_path ≡ o
          → LeavesPair (clean tools r (rename_first tools r ms o))
      unfolding rename_first
      after_first none e =
          (cleanup_cert ms ∙ keeps_cert, cleanup_key ms ∙ keeps_key, cleanup-NoTemporaries ms)
      after_first (some gs) e =
          let (content, x, y) = commit_inv ms (tmp_of r.key_path) r.key_path e in
          let gone = remove ms (tmp_of r.key_path) in
          after_second gs
            (ap (λ (z : Files A). z r.cert_path) y
              ∙ put_ne gone r.key_path r.cert_path (some content) paths.cert_key
              ∙ put_ne ms (tmp_of r.key_path) r.cert_path none paths.cert_tmp_key)
            (ap (λ (z : Files A). z (tmp_of r.cert_path)) y
              ∙ put_ne gone r.key_path (tmp_of r.cert_path) (some content)
                  (λ q. paths.key_tmp_cert (sym q))
              ∙ put_ne ms (tmp_of r.key_path) (tmp_of r.cert_path) none paths.tmp_tmp)
            (ap (λ (z : Files A). z r.key_path) y ∙ put_self gone r.key_path (some content) ∙ sym x)
            (commit tools gs (tmp_of r.cert_path) r.cert_path) refl

      after_both : (b : Bool) → LeavesPair (clean tools r (rename_both tools r (b, ms)))
      unfolding rename_both
      after_both false =
          (cleanup_cert ms ∙ keeps_cert, cleanup_key ms ∙ keeps_key, cleanup-NoTemporaries ms)
      after_both true = after_first (commit tools ms (tmp_of r.key_path) r.key_path) refl

    module _ (only : WritesOnlyTemporaries) where
      after_issue :
          (sans : List Text) (fs : Files A)
          → Leaves fs
              (made sans fs).1
              (clean tools r (issue tools r sans fs)).1
              (clean tools r (issue tools r sans fs)).0
      unfolding issue
      after_issue sans fs =
          after_both fs (made sans fs).1
            (only.keeps sans fs r.cert_path paths.cert_tmp paths.cert_tmp_key)
            (only.keeps sans fs r.key_path paths.key_tmp_cert paths.key_tmp) (made sans fs).0

      -- Where the four paths differ and mkcert writes to the two temporary files alone: a reissue
      -- that does nothing, or fails before mkcert, leaves the files alone. If mkcert or the first
      -- rename fails, certificate and key are the old ones; if the second fails, the key is new
      -- and the certificate is old; if none fails, both are what mkcert wrote. No temporary file
      -- stays behind once mkcert has run.
      pub reissue-Leaves :
          (now : ℕ) (sans : List Text) (fs : Files A)
          → Leaves fs
              (made sans fs).1
              (reissue tools now r sans fs).1
              (reissue tools now r sans fs).0
      unfolding reissue
      reissue-Leaves now sans fs =
          elim (Bool-cases (up_to_date tools now sans (current_sans tools r fs))) [
            | inl e ↦ rw e refl
            | inr e ↦ elim (Bool-cases (tools.mkdir_works (tools.dir r.cert_path))) [
              | inr f ↦ rw (e, f) refl
              | inl f ↦ elim (Bool-cases (tools.mkdir_works (tools.dir r.key_path))) [
                | inr g ↦ rw (e, f, g) refl
                | inl g ↦ rw (e, f, g) (after_issue sans fs)
              ]
            ]
          ]
