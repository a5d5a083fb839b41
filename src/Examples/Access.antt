-- ===== src/Examples/Access.antt =====
-- A connection with two grants, and a user who has the one of level `write`.
use verix_dbm.Base.{◌≡◌, refl, ◌↔◌, ◌⊎◌, true, false, [], ◌∷◌, OneOf, codes, ok, pos}
use verix_dbm.Store.{Store, Connection, Grant}
use verix_dbm.Store.Grants.{breaks_after, completes}
use verix_dbm.Access.{access, conn_for, listed}
use verix_dbm.Access.Policy.{IsUnscoped, ReadGrant, access_iff}
use verix_dbm.Access.Listing.{listed_iff}
use verix_dbm.Examples.Auth.{cfg, writer}

abbrev pub database : Connection
database = record {
  id = 1;
  name = codes "db";
  kind = codes "postgres";
  host = codes "h";
  port = pos 5432;
  db_name = codes "d";
  username = codes "u";
  password_enc = [];
  options = [];
  read_only = false;
  created_by = [];
  created_at = 0;
}

abbrev pub write_grant : Grant
write_grant = record {
  id = 2;
  conn_id = 1;
  subject = codes "/ops";
  level = codes "write";
  created_by = [];
  created_at = 0;
}

abbrev pub read_grant : Grant
read_grant = record write_grant { id = 1; subject = codes "dbm-write"; level = codes "read" }

abbrev pub two_grants : Store
two_grants = record {
  connections = database ∷ [];
  grants = read_grant ∷ write_grant ∷ [];
  audit = [];
  next_conn = 2;
  next_grant = 3;
  next_audit = 0;
}

-- The look-up breaks off after the first of the two grants, which is no grant to write.
access_iff_example :
    ((access cfg two_grants (breaks_after 1) writer database).read ≡ true ↔ (
      (writer.read ≡ true)
      × (IsUnscoped cfg writer ⊎ ((g : Grant) × ReadGrant two_grants writer 1 (breaks_after 1) g))))
    × ((access cfg two_grants (breaks_after 1) writer database).write ≡ true ↔ (
        (writer.write ≡ true)
        × (IsUnscoped cfg writer
            ⊎ ((g : Grant) × ReadGrant two_grants writer 1 (breaks_after 1) g
                × (g.level ≡ codes "write")))))
access_iff_example = access_iff cfg two_grants writer database (breaks_after 1)

listed_iff_example :
    OneOf database (listed cfg two_grants writer)
    ↔ (conn_for cfg two_grants completes writer 1 ≡ ok database)
listed_iff_example = listed_iff cfg two_grants writer database refl (tt, tt)
