-- ===== src/Discoverer/AtomicWrite.antt =====
-- `atomicWrite` of cmd/discoverer/reconcile.go, over the files of package `os`. The record says which
-- system calls succeed; a call that fails has no effect, but `Write` may leave a part of the content.
use mathlib.Core.Option.{none-ne-some}
use dockerdynomesh.Prelude.{
  ◌≡◌, refl, sym, ap, ◌∙◌, ◌≢◌, Bool, not, Option, none, some, Bool-cases, inl, inr, ◌⊎◌,
  if◌then◌else◌, [], ◌∷◌,
}
use dockerdynomesh.Text.{Text}
use dockerdynomesh.Files.{Files, tmp_of, put, remove, rename, put_self, put_ne, rename_inv}

pub record Calls : Type 0 where
  pub mkdir : Bool
  pub open_file : Bool
  pub write_all : Bool
  pub sync : Bool
  pub close : Bool
  pub rename_works : Bool
  pub partial : Text

pub data WriteResult : Type 0 where
  done mkdir_failed open_failed write_failed sync_failed close_failed rename_failed : WriteResult

abbrev drop_tmp : Text → WriteResult → Files Text → WriteResult × Files Text
drop_tmp path e fs = (e, remove fs (tmp_of path))

abbrev renamed : Text → Files Text → Option (Files Text) → WriteResult × Files Text
renamed path fs none = drop_tmp path rename_failed fs
renamed path fs (some gs) = (done, gs)

-- The file behind os.OpenFile with O_TRUNC, and behind Write.
abbrev opened : Text → Files Text → Files Text
opened path fs = put fs (tmp_of path) (some [])

abbrev written : Text → Text → Files Text → Files Text
written path content fs = put (opened path fs) (tmp_of path) (some content)

-- `atomicWrite`
unfoldable pub atomic_write : Calls → Text → Text → Files Text → WriteResult × Files Text
atomic_write calls path content fs =
    let full = written path content fs in
    if not calls.mkdir
    then (mkdir_failed, fs)
    else if not calls.open_file
    then (open_failed, fs)
    else if not calls.write_all
    then drop_tmp path write_failed (written path calls.partial fs)
    else if not calls.sync
    then drop_tmp path sync_failed full
    else if not calls.close
    then drop_tmp path close_failed full
    else renamed path full (if calls.rename_works then rename full (tmp_of path) path else none)

abbrev rest_of : Text → Text
rest_of [] = []
rest_of (c ∷ s) = s

path_ne_tmp : (path : Text) → path ≢ tmp_of path
path_ne_tmp [] e = cc
path_ne_tmp (c ∷ path) e = path_ne_tmp path (ap rest_of e)

-- The file holds the whole content and the temporary file is gone, or the call failed and the file
-- is as before.
pub data Wrote (path content : Text) (fs : Files Text) : WriteResult × Files Text → Type 0 where
  complete :
      (gs : Files Text)
      → gs path ≡ some content
      → gs (tmp_of path) ≡ none
      → Wrote path content fs (done, gs)
  untouched :
      (e : WriteResult) (gs : Files Text)
      → e ≢ done
      → gs path ≡ fs path
      → Wrote path content fs (e, gs)

module _ (path content : Text) (fs : Files Text) where
  written_path : (text : Text) → written path text fs path ≡ fs path
  written_path text =
      put_ne (opened path fs) (tmp_of path) path (some text) (path_ne_tmp path)
      ∙ put_ne fs (tmp_of path) path (some []) (path_ne_tmp path)

  dropped :
      (e : WriteResult) (text : Text)
      → e ≢ done
      → Wrote path content fs (drop_tmp path e (written path text fs))
  dropped e text n =
      Wrote.untouched e _ n (
        put_ne (written path text fs) (tmp_of path) path none (path_ne_tmp path)
        ∙ written_path text)

  renamed-Wrote :
      (o : Option (Files Text))
      → (o ≡ none) ⊎ (o ≡ rename (written path content fs) (tmp_of path) path)
      → Wrote path content fs (renamed path (written path content fs) o)
  renamed-Wrote none h = dropped rename_failed content (λ e. cc)
  renamed-Wrote (some gs) (inl e) = absurd (none-ne-some _ (sym e))
  renamed-Wrote (some gs) (inr e) =
      let full = written path content fs in
      let (text, x, y) = rename_inv full (tmp_of path) path (sym e) in
      Wrote.complete gs
        (ap (λ (z : Files Text). z path) y
          ∙ put_self (remove full (tmp_of path)) path (some text)
          ∙ sym x
          ∙ put_self (opened path fs) (tmp_of path) (some content))
        (ap (λ (z : Files Text). z (tmp_of path)) y
          ∙ put_ne (remove full (tmp_of path)) path (tmp_of path) (some text)
              (λ q. path_ne_tmp path (sym q))
          ∙ put_self full (tmp_of path) none)

  -- Whichever calls fail: `done` means that the file holds the whole content and that no temporary
  -- file is left; every error leaves the file as it was.
  pub atomic_write-Wrote :
      (calls : Calls) → Wrote path content fs (atomic_write calls path content fs)
  unfolding atomic_write
  atomic_write-Wrote calls = elim (Bool-cases calls.mkdir) [
    | inr a ↦ rw a (Wrote.untouched mkdir_failed fs (λ e. cc) refl)
    | inl a ↦ elim (Bool-cases calls.open_file) [
      | inr b ↦ rw (a, b) (Wrote.untouched open_failed fs (λ e. cc) refl)
      | inl b ↦ elim (Bool-cases calls.write_all) [
        | inr c ↦ rw (a, b, c) (dropped write_failed calls.partial (λ e. cc))
        | inl c ↦ elim (Bool-cases calls.sync) [
          | inr d ↦ rw (a, b, c, d) (dropped sync_failed content (λ e. cc))
          | inl d ↦ elim (Bool-cases calls.close) [
            | inr e ↦ rw (a, b, c, d, e) (dropped close_failed content (λ e. cc))
            | inl e ↦ elim (Bool-cases calls.rename_works) [
              | inr f ↦ rw (a, b, c, d, e, f) (renamed-Wrote none (inl refl))
              | inl f ↦ rw (a, b, c, d, e, f) (renamed-Wrote _ (inr refl))
            ]
          ]
        ]
      ]
    ]
  ]
