-- ===== src/Store/Paths.antt =====
-- internal/store/store.go: `ResolveSQLitePath` and `resolveExistingPrefix`. The package path/filepath
-- and the file system behind it are the parameter `Files`.
pub mod Inside
use verix_dbm.Base.{
  ℕ, zero, suc, ◌+◌, ◌-◌, ◌*◌, ◌≤◌, ◌<◌, String, ◌≡◌, refl, sym, ap, ◌∙◌, subst, ◌≢◌, ◌↔◌, ◌⊎◌, inl,
  inr, Bool, true, false, not, ◌&&◌, ◌||◌, Option, none, some, List, [], ◌∷◌, ◌++◌, map, append-nil,
  append_assoc, arith, ltb, leb, ◌==◌, if◌then◌else◌, ==_iff, Bool-cases, Option-cases, Bool-ext,
  length, length-append, All, OneOf, keep_if, keep_if-nil, keep_if-cons, length-keep_if-le, take,
  some_of, some_of-take, some_of-append, some_of-keep_if, some_of_elim, some_of_intro,
  keep_if-OneOf, OneOf-keep_if, keep_if_laws, Bytes, codes, str_eq, str_eq_iff, str_eq_refl,
  contains, contains_iff, contains-cons, contains-append, format_int, ◌>>=◌, Result-cases, guard-ok,
  Result, ok, err, max_int, wrapped, ℤ, pos, negsuc,
}
use verix_dbm.GoStrings.{trim_space, has_prefix}

pub record Files : Type 0 where
  pub abs : Bytes → Option Bytes
  pub eval_symlinks : Bytes → Option Bytes
  pub dir : Bytes → Bytes
  pub base : Bytes → Bytes
  pub join : Bytes → Bytes → Bytes
  pub clean : Bytes → Bytes
  pub rel : Bytes → Bytes → Option Bytes

pub data PathError : Type 0 where
  disabled : PathError
  no_path : PathError
  bad_root : PathError
  bad_path : PathError
  outside : PathError

-- Does a relative path lead out of the directory, or to the directory itself?
unfoldable pub leaves : Bytes → Bool
leaves rel = str_eq rel (codes ".") || (str_eq rel (codes "..") || has_prefix rel (codes "../"))

-- Does the path begin at the root of the file system?
abbrev pub is_abs : Bytes → Bool
is_abs p = has_prefix p (codes "/")

module _ (files : Files) where
  -- The loop of `resolveExistingPrefix`, on fuel: the longest part of the path that exists, resolved,
  -- and the rest. `p` is the whole path, which comes back when nothing of it exists.
  unfoldable pub walk : ℕ → Bytes → Bytes → Bytes → Option Bytes
  walk zero p rest cur = none
  walk (suc n) p rest cur = elim (files.eval_symlinks cur) [
    | some r ↦ some (if str_eq rest [] then r else files.join r rest)
    | none ↦ elim (str_eq (files.dir cur) cur) [
      | true ↦ some p
      | false ↦ walk n p (files.join (files.base cur) rest) (files.dir cur)
    ]
  ]

  -- A round takes a component off, so there are at most as many rounds as bytes, and one more.
  unfoldable pub resolve_existing_prefix : Bytes → Option Bytes
  unfolding walk
  resolve_existing_prefix p = walk (suc (length p)) p [] p

  contained : Bytes → Bytes → Option Bytes → Result PathError Bytes
  contained root abs none = err outside
  contained root abs (some r) = if leaves r then err outside else ok abs

  settle : Bytes → Option Bytes → Result PathError Bytes
  unfolding contained
  settle root none = err bad_path
  settle root (some c) = contained root (files.clean c) (files.rel root (files.clean c))

  settle_path : Bytes → Option Bytes → Result PathError Bytes
  unfolding settle resolve_existing_prefix
  settle_path root none = err bad_path
  settle_path root (some b) = settle root (resolve_existing_prefix b)

  under : Option Bytes → Bytes → Result PathError Bytes
  unfolding settle_path
  under none p = err bad_root
  under (some root) p = settle_path root (files.abs p)

  from_dir : Option Bytes → Bytes → Result PathError Bytes
  unfolding under
  from_dir none p = err bad_root
  from_dir (some a) p = under (files.eval_symlinks a) p

  unfoldable pub resolve_sqlite_path : Bytes → Bytes → Result PathError Bytes
  unfolding from_dir
  resolve_sqlite_path allow_dir p =
      if str_eq (trim_space allow_dir) []
      then err disabled
      else if str_eq (trim_space p) []
      then err no_path
      else from_dir (files.abs allow_dir) p

  -- `filepath.Dir` takes the last component off an absolute path, or leaves it the same, and the path
  -- stays absolute.
  abbrev pub ShortensPaths : Type 0
  ShortensPaths =
      (p : Bytes)
      → is_abs p ≡ true
      → (is_abs (files.dir p) ≡ true)
        × (str_eq (files.dir p) p ≡ false → length (files.dir p) < length p)

  walk-enough :
      (n : ℕ) (p rest cur : Bytes)
      → ShortensPaths
      → is_abs cur ≡ true
      → length cur < n
      → (r : Bytes) × (walk n p rest cur ≡ some r)
  unfolding walk
  walk-enough zero p rest cur d a h = ground arith
  walk-enough (suc n) p rest cur d a h = elim (Option-cases (files.eval_symlinks cur)) [
    | inr (r, e) ↦ (if str_eq rest [] then r else files.join r rest, rw (e, walk) refl)
    | inl e ↦ elim (Bool-cases (str_eq (files.dir cur) cur)) [
      | inl t ↦ (p, rw (e, t, walk) refl)
      | inr t ↦
          (let (up, less) = d cur a in
            let ih =
              walk-enough n p (files.join (files.base cur) rest) (files.dir cur) d up
                (omega (arith, less t, h)) in
            (ih.0, rw (e, t, walk) ih.1))
    ]
  ]

  -- On an absolute path, where taking the last component off an absolute path makes it shorter or
  -- leaves it the same, and absolute, the loop ends within its fuel.
  pub resolve_existing_prefix_lem :
      (p : Bytes)
      → ShortensPaths
      → is_abs p ≡ true
      → (r : Bytes) × (resolve_existing_prefix p ≡ some r)
  unfolding resolve_existing_prefix
  resolve_existing_prefix_lem p d a = walk-enough (suc (length p)) p [] p d a (omega arith)
