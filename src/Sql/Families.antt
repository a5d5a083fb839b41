-- ===== src/Sql/Families.antt =====
-- internal/dbsql/dbsql.go: the family of a kind of connection, and how a column is shown.
use verix_dbm.Base.{
  String, Bool, false, ◌||◌, Option, none, some, List, [], ◌∷◌, if◌then◌else◌, Bytes, codes,
}
use verix_dbm.GoMap.{bytes_key, lookup}
use verix_dbm.GoStrings.{to_lower, has_prefix}
use verix_dbm.Sql.{Column}

abbrev pub family_postgres : Bytes
family_postgres = codes "postgres"

abbrev pub family_mysql : Bytes
family_mysql = codes "mysql"

abbrev pub family_redis : Bytes
family_redis = codes "redis"

abbrev pub family_sqlite : Bytes
family_sqlite = codes "sqlite"

abbrev pub family_mongo : Bytes
family_mongo = codes "mongodb"

abbrev pub kind_family : List (Bytes × Bytes)
kind_family =
    (codes "postgres", family_postgres)
    ∷ (codes "cockroach", family_postgres)
    ∷ (codes "greenplum", family_postgres)
    ∷ (codes "redshift", family_postgres)
    ∷ (codes "yugabyte", family_postgres)
    ∷ (codes "timescale", family_postgres)
    ∷ (codes "aurorapg", family_postgres)
    ∷ (codes "mysql", family_mysql)
    ∷ (codes "mariadb", family_mysql)
    ∷ (codes "sqlite", family_sqlite)
    ∷ (codes "mongodb", family_mongo)
    ∷ (codes "redis", family_redis)
    ∷ []

or_postgres : Option Bytes → Bytes
or_postgres none = family_postgres
or_postgres (some f) = f

unfoldable pub family : Bytes → Bytes
unfolding or_postgres
family kind = or_postgres (lookup kind kind_family)

-- `strings.Contains`
unfoldable pub includes : Bytes → Bytes → Bool
unfolding has_prefix
includes [] t = has_prefix [] t
includes (c ∷ s) t = let later = includes s t in has_prefix (c ∷ s) t || later

abbrev pub includes_one : Bytes → List String → Bool
includes_one s [] = false
includes_one s (t ∷ ts) = includes s (codes t) || includes_one s ts

-- `Column.Cat`
unfoldable pub cat : Column → Bytes
unfolding includes
cat c =
    let t = to_lower c.kind in
    if c.pk
    then codes "pk"
    else if includes_one t
        ("int" ∷ "numeric" ∷ "decimal" ∷ "real" ∷ "double" ∷ "money" ∷ "serial" ∷ "float" ∷ [])
    then codes "num"
    else if includes_one t ("char" ∷ "text" ∷ "uuid" ∷ "enum" ∷ [])
    then codes "text"
    else if includes_one t ("timestamp" ∷ "date" ∷ "time" ∷ "interval" ∷ "year" ∷ [])
    then codes "time"
    else if includes_one t ("bool" ∷ [])
    then codes "bool"
    else if includes_one t ("json" ∷ [])
    then codes "json"
    else codes "col"
