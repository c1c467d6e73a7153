-- ===== src/Certgen/Reissue/Partial.antt =====
-- The state that a failed rename of the certificate leaves, and what later requests make of it.
use dockerdynomesh.Prelude.{ℕ, ◌≡◌, ◌∙◌, subst, List, false}
use dockerdynomesh.Text.{Text}
use dockerdynomesh.Files.{Files, tmp_of}
use dockerdynomesh.Certgen.Reissue.{Reissuer, Tools, reissued, failed, rename_cert, reissue}
use dockerdynomesh.Certgen.Reissue.Branches.{
  HasDistinctPaths, WritesOnlyTemporaries, made, Leaves, reissue-Leaves,
}
use dockerdynomesh.Certgen.Reissue.Laws.{IsCurrent, reissue_current}

-- Where the paths differ, mkcert writes to the temporary files alone, and the rename of the
-- certificate fails, the key of the new pair stands beside the old certificate; and a later
-- request for the names of the old certificate, while that is more than 30 days from its expiry,
-- is answered as a no-op that leaves both as they are.
pub mismatch_stays :
    {A : Type 0} (tools : Tools A) (r : Reissuer)
    → HasDistinctPaths r
    → WritesOnlyTemporaries tools r
    → (now later : ℕ) (sans old : List Text) (fs : Files A)
    → (reissue tools now r sans fs).0 ≡ failed rename_cert
    → IsCurrent tools r later old fs
    → let gs = (reissue tools now r sans fs).1 in
      (gs r.cert_path ≡ fs r.cert_path)
      × (gs r.key_path ≡ (made tools r sans fs).1 (tmp_of r.key_path))
      × (reissue tools later r old gs ≡ (reissued false, gs))
mismatch_stays tools r paths only now later sans old fs failure c =
    let gs = (reissue tools now r sans fs).1 in
    let after =
      subst (Leaves tools r fs (made tools r sans fs).1 gs) failure
        (reissue-Leaves tools r paths only now sans fs) in
    (
      after.0,
      after.1,
      reissue_current tools r later old gs (record {
        content = c.content;
        info = c.info;
        at_path = after.0 ∙ c.at_path;
        parsed = c.parsed;
        same_names = c.same_names;
        fresh = c.fresh;
      }),
    )
