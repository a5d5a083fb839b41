-- ===== src/Access/Listing.antt =====
-- The list of connections against `connFor`.
use verix_dbm.Base.{
  ℕ, ◌≡◌, ◌↔◌, inl, inr, true, not, ◌&&◌, some, List, [], ◌∷◌, arith, Bool-cases, Option-cases,
  OneOf, some_of, keep_if-OneOf, OneOf-keep_if, Bytes, ok,
}
use verix_dbm.Config.{Config}
use verix_dbm.Auth.Roles.{User, subjects}
use verix_dbm.Store.{Store, Connection, get_connection, find_row}
use verix_dbm.Store.Grants.{completes, applies, list_connections, list_connections_for_subjects}
use verix_dbm.Store.Rows.{granted, no_grant}
use verix_dbm.Store.Ids.{UniqueIds, find_row-OneOf, OneOf-find_row}
use verix_dbm.Access.{access, conn_for, listed}
use verix_dbm.Access.Policy.{access_bool}

module _ (s : Store) (c : Connection) where
  abbrev IsSeen : List Bytes → Type 0
  IsSeen ts = OneOf c s.connections × (granted s c.id ts ≡ true)

  for_subjects-IsSeen : (ts : List Bytes) → OneOf c (list_connections_for_subjects s ts) → IsSeen ts
  unfolding list_connections_for_subjects granted
  for_subjects-IsSeen [] m = absurd m
  for_subjects-IsSeen (t ∷ ts) m =
      keep_if-OneOf (λ (c : Connection). some_of (applies c.id (t ∷ ts)) s.grants) s.connections c m

  IsSeen-for_subjects : (ts : List Bytes) → IsSeen ts → OneOf c (list_connections_for_subjects s ts)
  unfolding list_connections_for_subjects granted
  IsSeen-for_subjects [] (m, h) = cc (no_grant c.id s.grants)
  IsSeen-for_subjects (t ∷ ts) (m, h) =
      OneOf-keep_if (λ (c : Connection). some_of (applies c.id (t ∷ ts)) s.grants) s.connections c m
        h

module _ (cfg : Config) (s : Store) (u : User) (c : Connection) (may_read : u.read ≡ true) where
  listed-access :
      OneOf c (listed cfg s u) → OneOf c s.connections × ((access cfg s completes u c).read ≡ true)
  unfolding listed list_connections
  listed-access m = elim (Bool-cases (cfg.scoped_access && not u.admin)) [
    | inl e ↦
        (let seen = for_subjects-IsSeen s c (subjects u) (rw e at m) in
          (seen.0, ground (arith, access_bool cfg s u c)))
    | inr e ↦ (rw e at m, ground (arith, access_bool cfg s u c))
  ]

  access-listed :
      OneOf c s.connections → (access cfg s completes u c).read ≡ true → OneOf c (listed cfg s u)
  unfolding listed list_connections
  access-listed m r = elim (Bool-cases (cfg.scoped_access && not u.admin)) [
    | inl e ↦ rw e (IsSeen-for_subjects s c (subjects u) (m, ground (arith, access_bool cfg s u c)))
    | inr e ↦ rw e m
  ]

  conn_for-ok :
      (id : ℕ)
      → conn_for cfg s completes u id ≡ ok c
      → (find_row id s.connections ≡ some c) × ((access cfg s completes u c).read ≡ true)
  unfolding conn_for get_connection
  conn_for-ok id h = elim (Option-cases (find_row id s.connections)) [
    | inl e ↦ ground arith
    | inr (d, e) ↦ ground arith
  ]

  -- To a user who may read, the list of connections shows exactly the rows that `connFor` opens, in
  -- either mode, if ids are unique and the grant look-up completes.
  pub listed_iff :
      UniqueIds s.connections → OneOf c (listed cfg s u) ↔ (conn_for cfg s completes u c.id ≡ ok c)
  unfolding conn_for get_connection
  listed_iff unique = (
    (λ m.
        let (row, r) = listed-access m in
        ground (arith, OneOf-find_row s.connections c unique row)),
    (λ h.
        let (row, r) = conn_for-ok c.id h in
        access-listed (find_row-OneOf c.id s.connections c row).0 r),
  )
