-- ===== src/Welcome/Pages.antt =====
-- What the service answers to a path.
use dockerdynomesh.Prelude.{ℕ, ◌≡◌, ◌≢◌, refl, ◌++◌, Option, none, some, Bool-cases, inl, inr}
use dockerdynomesh.Text.{Text, codes, ◌==◌}
use dockerdynomesh.Text.Order.{==_iff, ne_of_test}
use dockerdynomesh.Files.{Files}
use dockerdynomesh.Welcome.{
  Server, Page, http_error, install_script, handle_index, root_page, handle_root_cert,
  handle_install, serve,
}

-- An error in plain text.
pub record IsError (code : ℕ) (text : Text) (page : Page) : Type 0 where
  pub status : page.status ≡ code
  pub content_type : page.content_type ≡ codes "text/plain; charset=utf-8"
  pub disposition : page.disposition ≡ none
  pub body : page.body ≡ text

-- A page with status 200 and these headers and content.
pub record IsContent (kind : Text) (saved_as : Option Text) (content : Text) (page : Page)
    : Type 0 where
  pub status : page.status ≡ 200
  pub content_type : page.content_type ≡ kind
  pub disposition : page.disposition ≡ saved_as
  pub body : page.body ≡ content

-- The answers, by path.
pub data Served (clean_path : Text → Text) (moved : Text → Page) (index_page : Server → Text)
    (s : Server) (fs : Files Text) (path : Text) (page : Page) : Type 0 where
  redirected :
      clean_path path ≢ path
      → page ≡ moved (clean_path path)
      → Served clean_path moved index_page s fs path page
  index :
      clean_path path ≡ path
      → path ≡ codes "/"
      → IsContent (codes "text/html; charset=utf-8") none (index_page s) page
      → Served clean_path moved index_page s fs path page
  root :
      clean_path path ≡ path
      → path ≡ codes "/root.crt"
      → (cert : Text) → fs s.root_cert_path ≡ some cert
      → IsContent
          (codes "application/x-x509-ca-cert")
          (some (codes "attachment; filename=\"root.crt\""))
          cert
          page
      → Served clean_path moved index_page s fs path page
  no_root :
      clean_path path ≡ path
      → path ≡ codes "/root.crt"
      → fs s.root_cert_path ≡ none
      → IsError 503 (codes "root cert not yet available\n") page
      → Served clean_path moved index_page s fs path page
  install :
      clean_path path ≡ path
      → path ≡ codes "/install.sh"
      → IsContent (codes "text/x-shellscript; charset=utf-8") none (install_script s) page
      → Served clean_path moved index_page s fs path page
  not_found :
      clean_path path ≡ path
      → path ≢ codes "/"
      → path ≢ codes "/root.crt"
      → path ≢ codes "/install.sh"
      → IsError 404 (codes "404 page not found\n") page
      → Served clean_path moved index_page s fs path page

abbrev exact_content :
    (content_type : Text) (disposition : Option Text) (body : Text)
    → IsContent content_type disposition body (record {
      status = 200;
      content_type = content_type;
      disposition = disposition;
      body = body;
    })
exact_content content_type disposition body = record {
  status = refl;
  content_type = refl;
  disposition = refl;
  body = refl;
}

abbrev exact_error :
    (status : ℕ) (text : Text) → IsError status (text ++ codes "\n") (http_error status text)
exact_error status text = record {
  status = refl;
  content_type = refl;
  disposition = refl;
  body = refl;
}

module _ (clean_path : Text → Text) (moved : Text → Page) (index_page : Server → Text) (s : Server)
    (fs : Files Text) (path : Text) where
  Served-root :
      clean_path path ≡ path
      → path ≡ codes "/root.crt"
      → (o : Option Text) → fs s.root_cert_path ≡ o
      → Served clean_path moved index_page s fs path (root_page o)
  Served-root c e none h =
      Served.no_root c e h (exact_error 503 (codes "root cert not yet available"))
  Served-root c e (some cert) h = Served.root c e cert h (exact_content _ _ cert)

  Served-index :
      clean_path path ≡ path
      → path ≢ codes "/root.crt"
      → path ≢ codes "/install.sh"
      → Served clean_path moved index_page s fs path (handle_index index_page s path)
  unfolding handle_index
  Served-index c n m = elim (Bool-cases (path == codes "/")) [
    | inl e ↦ rw e (Served.index c ((==_iff path (codes "/")).0 e) (exact_content _ _ _))
    | inr e ↦ rw e (
        Served.not_found c (ne_of_test path (codes "/") e) n m
          (exact_error 404 (codes "404 page not found")))
  ]

  -- A path that the multiplexer cleans is redirected to the cleaned one. Of the clean paths three are
  -- served, each with its own content type: the index, the root certificate, as an attachment that is
  -- the file as it stands, or status 503 while there is none, and the install script. Every other
  -- clean path has status 404.
  pub serve-Served :
      Served clean_path moved index_page s fs path (serve clean_path moved index_page s fs path)
  unfolding serve handle_root_cert handle_install
  serve-Served = elim (Bool-cases (clean_path path == path)) [
    | inr d ↦ rw d (Served.redirected (ne_of_test (clean_path path) path d) refl)
    | inl d ↦
        let c = (==_iff (clean_path path) path).0 d in
        elim (Bool-cases (path == codes "/root.crt")) [
          | inl e ↦
              rw (d, e)
                (Served-root c ((==_iff path (codes "/root.crt")).0 e) (fs s.root_cert_path) refl)
          | inr e ↦ elim (Bool-cases (path == codes "/install.sh")) [
            | inl f ↦
                rw (d, e, f)
                  (Served.install c ((==_iff path (codes "/install.sh")).0 f) (exact_content _ _ _))
            | inr f ↦
                rw (d, e, f)
                  (Served-index c (ne_of_test path (codes "/root.crt") e)
                    (ne_of_test path (codes "/install.sh") f))
          ]
        ]
  ]
