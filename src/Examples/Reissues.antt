-- ===== src/Examples/Reissues.antt =====
-- The certificate's files, and the client of the service.
use dockerdynomesh.Prelude.{◌≡◌, refl, true, false, List, [], ◌∷◌, none, some, arith}
use dockerdynomesh.Prelude.Sort.{sort}
use dockerdynomesh.Text.{Text, codes, ◌==◌}
use dockerdynomesh.Text.Order.{text_order}
use dockerdynomesh.Files.{Files, put, rename}
use dockerdynomesh.Certgen.Reissue.{
  CertInfo, reissued, failed, rename_cert, sans_equal, current_sans, commit, reissue,
}
use dockerdynomesh.Certgen.Reissue.Branches.{made, Leaves, reissue-Leaves}
use dockerdynomesh.Certgen.Reissue.Laws.{IsCurrent}
use dockerdynomesh.Certgen.Reissue.Partial.{mismatch_stays}
use dockerdynomesh.Certgen.Api.{ReissueRequest, requested_sans}
use dockerdynomesh.Certclient.{answering}
use dockerdynomesh.Certclient.Service.{reply_of, IsCodec, call, call_valid}
use dockerdynomesh.Discoverer.AtomicWrite.{Calls, Wrote, atomic_write, atomic_write-Wrote}
use dockerdynomesh.Examples.Data.{
  request, request-IsValid, reissuer, tools, decode, encode, decode_response,
  reissuer-HasDistinctPaths, tools-WritesOnlyTemporaries,
}

abbrev no_files : Files CertInfo
no_files path = none

abbrev names : List Text
names = codes "*.a" ∷ []

abbrev old_names : List Text
old_names = codes "*.b" ∷ []

abbrev works : Text
works = []

reissue-Leaves_example :
    Leaves
      (tools works)
      reissuer
      no_files
      (made (tools works) reissuer names no_files).1
      (reissue (tools works) 0 reissuer names no_files).1
      (reissue (tools works) 0 reissuer names no_files).0
reissue-Leaves_example =
    reissue-Leaves (tools works) reissuer reissuer-HasDistinctPaths
      (tools-WritesOnlyTemporaries works) 0 names no_files

abbrev info : CertInfo
info = record { sans = names; not_after = 3_000_000_000_000_000 }

-- The old pair, and a rename of the certificate that fails.
abbrev old_info : CertInfo
old_info = record { sans = old_names; not_after = 3_000_000_000_000_000 }

abbrev old_files : Files CertInfo
old_files path = some old_info

abbrev broken : Text
broken = codes "c"

failed_reissue : (reissue (tools broken) 0 reissuer names old_files).0 ≡ failed rename_cert
unfolding reissue current_sans commit rename put ◌==◌ sans_equal sort
failed_reissue = refl

old_IsCurrent : IsCurrent (tools broken) reissuer 5 old_names old_files
unfolding sort
old_IsCurrent = record {
  content = old_info;
  info = old_info;
  at_path = refl;
  parsed = refl;
  same_names = refl;
  fresh = omega arith;
}

mismatch_stays_example :
    let gs = (reissue (tools broken) 0 reissuer names old_files).1 in
    (gs (codes "c") ≡ some old_info)
    × (gs (codes "k") ≡ (made (tools broken) reissuer names old_files).1 (codes "k.tmp"))
    × (reissue (tools broken) 5 reissuer old_names gs ≡ (reissued false, gs))
mismatch_stays_example =
    mismatch_stays (tools broken) reissuer reissuer-HasDistinctPaths
      (tools-WritesOnlyTemporaries broken) 0 5 names old_names old_files failed_reissue
      old_IsCurrent

codec :
    (body : ReissueRequest)
    → IsCodec (tools works) decode reissuer 0 encode decode_response body body
codec body = record { encoded = refl; decoded = refl; response = λ r. refl }

call_valid_example :
    call
      (tools works)
      decode
      reissuer
      0
      encode
      decode_response
      answering
      (codes "/s")
      request
      no_files
    ≡ (
      reply_of
          (requested_sans request)
          (reissue (tools works) 0 reissuer (requested_sans request) no_files).0,
      (reissue (tools works) 0 reissuer (requested_sans request) no_files).1,
    )
call_valid_example =
    call_valid (tools works) decode reissuer 0 encode decode_response (codes "/s") request request
      no_files (codec request) request-IsValid

-- Everything works but the rename.
abbrev calls : Calls
calls = record {
  mkdir = true;
  open_file = true;
  write_all = true;
  sync = true;
  close = true;
  rename_works = false;
  partial = [];
}

abbrev old_yaml : Files Text
old_yaml path = some (codes "old")

atomic_write-Wrote_example :
    Wrote
      (codes "d.yml")
      (codes "new")
      old_yaml
      (atomic_write calls (codes "d.yml") (codes "new") old_yaml)
atomic_write-Wrote_example = atomic_write-Wrote (codes "d.yml") (codes "new") old_yaml calls
