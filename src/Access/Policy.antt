-- ===== src/Access/Policy.antt =====
-- Who may read or write through a connection, by the rows of the grant table.
use verix_dbm.Base.{
  ℕ, ◌≡◌, refl, sym, ◌∙◌, ◌≢◌, ◌↔◌, ◌⊎◌, inl, inr, Bool, true, false, not, ◌&&◌, ◌||◌, List, [],
  arith, Bool-cases, Option-cases, OneOf, keep_if, some_of_elim, some_of_intro, keep_if-OneOf,
  codes, str_eq_iff, contains_iff,
}
use verix_dbm.Config.{Config}
use verix_dbm.Auth.Roles.{User, subjects}
use verix_dbm.Auth.Roles.Merge.{contains-subjects}
use verix_dbm.Store.{Store, Connection, Grant}
use verix_dbm.Store.Grants.{Fetch, completes, applies, is_write, grant_for_subjects}
use verix_dbm.Store.Rows.{
  granted, write_granted, completes_lem, fetch_le, read_of, read_of-OneOf, fetch_lem, always,
  is_found, at_write,
}
use verix_dbm.Access.{access}

-- A row of the table, of the given connection, names one of the user's roles or groups.
pub record Names (s : Store) (u : User) (id : ℕ) (g : Grant) : Type 0 where
  pub row : OneOf g s.grants
  pub of_conn : g.conn_id ≡ id
  pub of_user : OneOf g.subject u.roles ⊎ OneOf g.subject u.groups
  pub subject_set : g.subject ≢ []

applies-Names :
    (s : Store) (u : User) (id : ℕ) (g : Grant)
    → OneOf g s.grants
    → applies id (subjects u) g ≡ true
    → Names s u id g
unfolding applies
applies-Names s u id g m h = record {
  row = m;
  of_conn = ground arith;
  of_user = ground (
    arith,
    contains-subjects u g.subject,
    contains_iff u.roles g.subject,
    contains_iff u.groups g.subject,
  );
  subject_set = ground (arith, contains-subjects u g.subject, str_eq_iff g.subject []);
}

Names-applies :
    (s : Store) (u : User) (id : ℕ) (g : Grant) → Names s u id g → applies id (subjects u) g ≡ true
unfolding applies
Names-applies s u id g v = ground (
  arith,
  v.of_user,
  v.subject_set,
  v.of_conn,
  contains-subjects u g.subject,
  contains_iff u.roles g.subject,
  contains_iff u.groups g.subject,
  str_eq_iff g.subject [],
)

-- The rows that the look-up of a user's grant on a connection asks for.
abbrev pub asked_for : Store → User → ℕ → List Grant
asked_for s u id = keep_if (applies id (subjects u)) s.grants

read-Names :
    (s : Store) (u : User) (id : ℕ) (fetch : Fetch) (g : Grant)
    → OneOf g (read_of fetch (asked_for s u id))
    → Names s u id g
read-Names s u id fetch g m =
    let (row, a) =
      keep_if-OneOf (applies id (subjects u)) s.grants g
        (read_of-OneOf fetch (asked_for s u id) g m) in
    applies-Names s u id g row a

-- A grant that names the user, and that the look-up has read.
abbrev pub ReadGrant : Store → User → ℕ → Fetch → Grant → Type 0
ReadGrant s u id fetch g = Names s u id g × OneOf g (read_of fetch (asked_for s u id))

found_iff :
    (s : Store) (u : User) (id : ℕ) (fetch : Fetch)
    → (is_found (grant_for_subjects s fetch id (subjects u)).0 ≡ true)
      ↔ ((g : Grant) × ReadGrant s u id fetch g)
unfolding always
found_iff s u id fetch =
    let rows = read_of fetch (asked_for s u id) in
    let (found, write) = fetch_lem s id fetch (subjects u) in
    (
      (λ h.
          let (g, m, a) = some_of_elim always rows (sym found ∙ h) in
          (g, (read-Names s u id fetch g m, m))),
      (λ (g, (v, m)). found ∙ some_of_intro always rows g m refl),
    )

found_write_iff :
    (s : Store) (u : User) (id : ℕ) (fetch : Fetch)
    → (at_write (grant_for_subjects s fetch id (subjects u)).0 ≡ true)
      ↔ ((g : Grant) × ReadGrant s u id fetch g × (g.level ≡ codes "write"))
unfolding is_write
found_write_iff s u id fetch =
    let rows = read_of fetch (asked_for s u id) in
    let (found, write) = fetch_lem s id fetch (subjects u) in
    (
      (λ h.
          let (g, m, a) = some_of_elim is_write rows (sym write ∙ h) in
          (g, (read-Names s u id fetch g m, m), (str_eq_iff g.level (codes "write")).0 a)),
      (λ (g, (v, m), e).
          write ∙ some_of_intro is_write rows g m ((str_eq_iff g.level (codes "write")).1 e)),
    )

-- The user is not held to grants.
abbrev pub IsUnscoped : Config → User → Type 0
IsUnscoped cfg u = (cfg.scoped_access ≡ false) ⊎ (u.admin ≡ true)

capped_iff :
    (may cap scoped admin held : Bool) {G : Type 0}
    → may ≡ (cap && ((not scoped || admin) || held))
    → (held ≡ true) ↔ G
    → (may ≡ true) ↔ ((cap ≡ true) × (((scoped ≡ false) ⊎ (admin ≡ true)) ⊎ G))
capped_iff may cap scoped admin held e (f, g) = (
  (λ h. elim (Bool-cases scoped) [
    | inl sc ↦ elim (Bool-cases admin) [
      | inl ad ↦ (ground arith, inl (inr ad))
      | inr ad ↦ (ground arith, inr (f (ground arith)))
    ]
    | inr sc ↦ (ground arith, inl (inl sc))
  ]),
  (λ (c, w). elim w [
    | inl (inl sc) ↦ ground arith
    | inl (inr ad) ↦ ground arith
    | inr x ↦ ground (arith, g x)
  ]),
)

module _ (cfg : Config) (s : Store) (u : User) (c : Connection) where
  pub access_bool :
      (let a = access cfg s completes u c in
        (a.read ≡ (u.read && ((not cfg.scoped_access || u.admin) || granted s c.id (subjects u))))
        × (a.write ≡ (
            u.write && ((not cfg.scoped_access || u.admin) || write_granted s c.id (subjects u)))))
  unfolding access
  access_bool = ground (arith, completes_lem s c.id (subjects u))

  access_found :
      (fetch : Fetch)
      → let a = access cfg s fetch u c in
        let g = (grant_for_subjects s fetch c.id (subjects u)).0 in
        (a.read ≡ (u.read && ((not cfg.scoped_access || u.admin) || is_found g)))
        × (a.write ≡ (u.write && ((not cfg.scoped_access || u.admin) || at_write g)))
  unfolding access
  access_found fetch = ground (arith, Option-cases (grant_for_subjects s fetch c.id (subjects u)).0)

  -- A user reads through a connection exactly if they may read at all and, in scoped mode and
  -- unless they are an admin, the look-up of their grants has read a grant on the connection that
  -- names one of their roles or groups, by a name that is not empty. They write exactly if they may
  -- write at all and, likewise, such a grant of level `write` has been read. The look-up reads all
  -- such grants, or none where it fails, or the first ones where it breaks off.
  pub access_iff :
      (fetch : Fetch)
      → ((access cfg s fetch u c).read ≡ true
          ↔ ((u.read ≡ true) × (IsUnscoped cfg u ⊎ ((g : Grant) × ReadGrant s u c.id fetch g))))
        × ((access cfg s fetch u c).write ≡ true ↔ (
            (u.write ≡ true)
            × (IsUnscoped cfg u
                ⊎ ((g : Grant) × ReadGrant s u c.id fetch g × (g.level ≡ codes "write")))))
  access_iff fetch = (
    capped_iff _ u.read cfg.scoped_access u.admin _ (access_found fetch).0
        (found_iff s u c.id fetch),
    capped_iff _ u.write cfg.scoped_access u.admin _ (access_found fetch).1
        (found_write_iff s u c.id fetch),
  )

  access_fetch_bool :
      (fetch : Fetch)
      → let a = access cfg s fetch u c in
        (a.read ≡ true
          → (u.read && ((not cfg.scoped_access || u.admin) || granted s c.id (subjects u))) ≡ true)
        × (a.write ≡ true
            → (u.write && ((not cfg.scoped_access || u.admin) || write_granted s c.id (subjects u)))
              ≡ true)
  unfolding access
  access_fetch_bool fetch = ground (arith, fetch_le s c.id fetch (subjects u))

  -- A grant look-up that fails, or that breaks off after some rows, never lets a user do more than
  -- the whole table would.
  pub access_fetch :
      (fetch : Fetch)
      → ((access cfg s fetch u c).read ≡ true → (access cfg s completes u c).read ≡ true)
        × ((access cfg s fetch u c).write ≡ true → (access cfg s completes u c).write ≡ true)
  access_fetch fetch = (
    (λ h. access_bool.0 ∙ (access_fetch_bool fetch).0 h),
    (λ h. access_bool.1 ∙ (access_fetch_bool fetch).1 h),
  )
