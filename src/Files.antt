-- ===== src/Files.antt =====
-- Package `os` as far as the program uses it: files by path, with removal and rename.
use mathlib.Core.Option.{some-injective}
use dockerdynomesh.Prelude.{
  ◌≡◌, refl, sym, ◌≢◌, ◌++◌, Option, none, some, Bool-cases, inl, inr, if◌then◌else◌,
}
use dockerdynomesh.Text.{Text, codes, ◌==◌}
use dockerdynomesh.Text.Order.{==_iff, ==_refl}

-- The content of each path that holds a file.
abbrev pub Files : Type 0 → Type 0
Files A = Text → Option A

-- path + ".tmp"
abbrev pub tmp_of : Text → Text
tmp_of path = path ++ codes ".tmp"

module _ {A : Type 0} where
  unfoldable pub put : Files A → Text → Option A → Files A
  put fs path content p = if p == path then content else fs p

  -- os.Remove
  abbrev pub remove : Files A → Text → Files A
  remove fs path = put fs path none

  move : Files A → Text → Text → Option A → Option (Files A)
  move fs old new none = none
  move fs old new (some content) = some (put (remove fs old) new (some content))

  -- os.Rename of a file: `none` if there is no such file.
  unfoldable pub rename : Files A → Text → Text → Option (Files A)
  unfolding move
  rename fs old new = move fs old new (fs old)

  pub put_self :
      (fs : Files A) (path : Text) (content : Option A) → put fs path content path ≡ content
  unfolding put
  put_self fs path content = rw (==_refl path)

  pub put_ne :
      (fs : Files A) (path p : Text) (content : Option A) → p ≢ path → put fs path content p ≡ fs p
  unfolding put
  put_ne fs path p content n = elim (Bool-cases (p == path)) [
    | inl e ↦ absurd (n ((==_iff p path).0 e))
    | inr e ↦ rw e
  ]

  move_inv :
      (fs : Files A) (old new : Text) (o : Option A) {gs : Files A}
      → move fs old new o ≡ some gs
      → (content : A) × (o ≡ some content) × (gs ≡ put (remove fs old) new (some content))
  unfolding move
  move_inv fs old new none h = cc
  move_inv fs old new (some c) h = (c, refl, sym (some-injective _ _ h))

  -- A rename that succeeds moves the file, over what stood there.
  pub rename_inv :
      (fs : Files A) (old new : Text) {gs : Files A}
      → rename fs old new ≡ some gs
      → (content : A) × (fs old ≡ some content) × (gs ≡ put (remove fs old) new (some content))
  unfolding rename
  rename_inv fs old new h = move_inv fs old new (fs old) h
