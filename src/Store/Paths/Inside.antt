-- ===== src/Store/Paths/Inside.antt =====
-- Where the paths lie that `ResolveSQLitePath` accepts.
use verix_dbm.Base.{
  ◌≡◌, ◌≢◌, ◌⊎◌, true, false, none, some, ◌++◌, if◌then◌else◌, Bytes, codes, str_eq,
}
use verix_dbm.Store.Paths.{Files, is_abs}

-- A directory with the separator behind it.
abbrev pub with_slash : Bytes → Bytes
with_slash root = if str_eq root (codes "/") then root else root ++ codes "/"

-- What the package path/filepath says of `Abs`, `EvalSymlinks`, `Rel`, `Join` and `Clean`.
pub record IsFilepath (files : Files) : Type 0 where
  pub abs_is_abs : (p q : Bytes) → files.abs p ≡ some q → is_abs q ≡ true
  pub links_clean : (p r : Bytes) → files.eval_symlinks p ≡ some r → files.clean r ≡ r
  pub links_abs : (p r : Bytes) → is_abs p ≡ true → files.eval_symlinks p ≡ some r → is_abs r ≡ true
  pub clean_again : (p : Bytes) → files.clean (files.clean p) ≡ files.clean p
  pub rel_joins : (root p r : Bytes) → files.rel root p ≡ some r → files.join root r ≡ files.clean p
  pub rel_clean : (root p r : Bytes) → files.rel root p ≡ some r → files.clean r ≡ r
  pub rel_relative : (root p r : Bytes) → files.rel root p ≡ some r → is_abs r ≡ false
  pub joins_below :
      (root r : Bytes)
      → is_abs root ≡ true
      → files.clean root ≡ root
      → is_abs r ≡ false
      → files.clean r ≡ r
      → r ≢ codes "."
      → r ≢ codes ".."
      → ((t : Bytes) → r ≢ codes "../" ++ t)
      → files.join root r ≡ with_slash root ++ r

module _ (files : Files) (laws : IsFilepath files) where
  -- The path is that of something below the directory, and it is the file itself: what it names has
  -- no links left, where it is there.
  abbrev pub IsBelow : Bytes → Bytes → Bytes → Type 0
  IsBelow root q path =
      ((r : Bytes) × (path ≡ with_slash root ++ r))
      × ((files.eval_symlinks q ≡ none) ⊎ (files.eval_symlinks q ≡ some path))
