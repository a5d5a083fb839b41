-- ===== src/Store.antt =====
-- internal/store/store.go: the metadata store. A table is the list of its rows, and an operation is
-- what its SQL statement does to them; time is an argument.
pub mod Grants
pub mod Rows
pub mod Invariant
pub mod Ids
pub mod Lookup
pub mod Paths
use Prim.Native.Nat.{◌/◌}
use verix_dbm.Base.{
  ℕ, zero, suc, ◌+◌, ◌-◌, ◌*◌, ◌≤◌, ◌<◌, String, ◌≡◌, refl, sym, ap, ◌∙◌, subst, ◌≢◌, ◌↔◌, ◌⊎◌, inl,
  inr, Bool, true, false, not, ◌&&◌, ◌||◌, Option, none, some, List, [], ◌∷◌, ◌++◌, map, append-nil,
  append_assoc, arith, ltb, leb, ◌==◌, if◌then◌else◌, ==_iff, Bool-cases, Option-cases, Bool-ext,
  length, length-append, All, OneOf, keep_if, keep_if-nil, keep_if-cons, length-keep_if-le, take,
  some_of, some_of-take, some_of-append, some_of-keep_if, some_of_elim, some_of_intro,
  keep_if-OneOf, OneOf-keep_if, keep_if_laws, Bytes, codes, str_eq, str_eq_iff, str_eq_refl,
  contains, contains_iff, contains-cons, contains-append, format_int, ◌>>=◌, Result-cases, guard-ok,
  Result, ok, err, max_int, wrapped, ℤ, pos, negsuc,
}

pub record Connection : Type 0 where
  pub id : ℕ
  pub name : Bytes
  pub kind : Bytes
  pub host : Bytes
  pub port : ℤ
  pub db_name : Bytes
  pub username : Bytes
  pub password_enc : Bytes
  pub options : Bytes
  pub read_only : Bool
  pub created_by : Bytes
  pub created_at : ℕ

pub record Grant : Type 0 where
  pub id : ℕ
  pub conn_id : ℕ
  pub subject : Bytes
  pub level : Bytes
  pub created_by : Bytes
  pub created_at : ℕ

pub record Audit : Type 0 where
  pub id : ℕ
  pub ts : ℕ
  pub user : Bytes
  pub conn_id : ℕ
  pub action : Bytes
  pub detail : Bytes
  pub success : Bool

-- The tables, with the next value of each id column.
pub record Store : Type 0 where
  pub connections : List Connection
  pub grants : List Grant
  pub audit : List Audit
  pub next_conn : ℕ
  pub next_grant : ℕ
  pub next_audit : ℕ

pub data StoreError : Type 0 where
  no_rows : StoreError
  foreign_key : StoreError
  unavailable : StoreError

abbrev pub grant_read : Bytes
grant_read = codes "read"

abbrev pub grant_write : Bytes
grant_write = codes "write"

unfoldable pub valid_grant_level : Bytes → Bool
valid_grant_level level = str_eq level grant_read || str_eq level grant_write

-- SELECT ... WHERE id=?
unfoldable pub find_row : ℕ → List Connection → Option Connection
find_row id [] = none
find_row id (c ∷ cs) = if c.id == id then some c else find_row id cs

or_no_rows : {A : Type 0} → Option A → Result StoreError A
or_no_rows none = err no_rows
or_no_rows (some a) = ok a

unfoldable pub get_connection : Store → ℕ → Result StoreError Connection
unfolding or_no_rows
get_connection s id = or_no_rows (find_row id s.connections)

unfoldable pub create_connection : Store → Connection → ℕ → Store × ℕ
create_connection s c now = (
  record s {
    connections = s.connections ++ (record c { id = s.next_conn; created_at = now }) ∷ [];
    next_conn = suc s.next_conn;
  },
  s.next_conn,
)

-- UPDATE connections SET ... WHERE id=?, over every row.
unfoldable pub update_rows : ℕ → (Connection → Connection) → List Connection → List Connection
update_rows id set [] = []
update_rows id set (c ∷ cs) = (if c.id == id then set c else c) ∷ update_rows id set cs

-- The columns of an edit; the password is kept.
unfoldable pub edited : Connection → Connection → Connection
edited c row = record row {
  name = c.name;
  kind = c.kind;
  host = c.host;
  port = c.port;
  db_name = c.db_name;
  username = c.username;
  options = c.options;
  read_only = c.read_only;
}

unfoldable pub edited_with_password : Connection → Connection → Connection
unfolding edited
edited_with_password c row = record (edited c row) { password_enc = c.password_enc }

unfoldable pub update_connection : Store → Connection → Bool → Store
update_connection s c update_pw =
    if update_pw
    then record s { connections = update_rows c.id (edited_with_password c) s.connections }
    else record s { connections = update_rows c.id (edited c) s.connections }

unfoldable pub with_password : Bytes → Connection → Connection
with_password enc row = record row { password_enc = enc }

unfoldable pub update_password_enc : Store → ℕ → Bytes → Store
update_password_enc s id enc = record s {
  connections = update_rows id (with_password enc) s.connections;
}

-- DELETE FROM connections WHERE id=?; the grants' foreign key cascades.
unfoldable pub delete_connection : Store → ℕ → Store
delete_connection s id = record s {
  connections = keep_if (λ (c : Connection). not (c.id == id)) s.connections;
  grants = keep_if (λ (g : Grant). not (g.conn_id == id)) s.grants;
}

-- The row is written, and the event comes back for the sink.
-- The times of the rows are kept in whole seconds.
abbrev second : ℕ
second = 1000000000

unfoldable pub add_audit : Store → Audit → ℕ → Store × Audit
add_audit s a now = (
  record s {
    audit = s.audit ++ (record a { id = s.next_audit; ts = now / second }) ∷ [];
    next_audit = suc s.next_audit;
  },
  record a { ts = now },
)

-- The number of deleted rows comes back.
unfoldable pub purge_audit_older_than : Store → ℕ → Store × ℕ
purge_audit_older_than s cutoff =
    let kept = keep_if (λ (a : Audit). leb (cutoff / second) a.ts) s.audit in
    (record s { audit = kept }, length s.audit - length kept)

-- Is this the row that the unique constraint is about?
unfoldable pub same_pair : ℕ → Bytes → Grant → Bool
same_pair conn_id subject g = (g.conn_id == conn_id) && str_eq g.subject subject

unfoldable pub upsert : Grant → List Grant → List Grant
unfolding same_pair
upsert new [] = new ∷ []
upsert new (g ∷ gs) =
    if same_pair new.conn_id new.subject g
    then (record g { level = new.level; created_by = new.created_by; created_at = new.created_at })
      ∷ gs
    else g ∷ upsert new gs

insert_grant : Store → Grant → ℕ → Option Connection → Result StoreError Store
insert_grant s g now none = err foreign_key
insert_grant s g now (some c) = ok (record s {
  grants = upsert (record g { id = s.next_grant; created_at = now }) s.grants;
  next_grant = suc s.next_grant;
})

unfoldable pub set_grant : Store → Grant → ℕ → Result StoreError Store
unfolding insert_grant
set_grant s g now = insert_grant s g now (find_row g.conn_id s.connections)

unfoldable pub delete_grant : Store → ℕ → ℕ → Store
delete_grant s conn_id id = record s {
  grants = keep_if (λ (g : Grant). not ((g.id == id) && (g.conn_id == conn_id))) s.grants;
}

reverse_onto : List Audit → List Audit → List Audit
reverse_onto [] out = out
reverse_onto (a ∷ rest) out = reverse_onto rest (a ∷ out)

-- SELECT ... FROM audit ORDER BY id DESC LIMIT ?; the rows stand in the order of their ids.
unfoldable pub list_audit : Store → ℕ → List Audit
unfolding reverse_onto
list_audit s limit = take limit (reverse_onto s.audit [])

-- SELECT ... FROM audit ORDER BY id, with what is made of each row.
unfoldable pub iter_audit {ℓ} : {A : Type ℓ} → Store → (Audit → A) → List A
iter_audit s f = map f s.audit
