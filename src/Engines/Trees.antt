-- ===== src/Engines/Trees.antt =====
-- `Schemas` of internal/mysql/mysql.go and internal/postgres/postgres.go: the rows of the catalogue,
-- grouped by their schema.
use verix_dbm.Base.{
  ◌≡◌, refl, sym, ap, ◌∙◌, ◌⊎◌, inl, inr, Bool, true, false, not, Option, none, some, List, [], ◌∷◌,
  ◌++◌, map, append-nil, append_assoc, arith, if◌then◌else◌, Bool-cases, OneOf, Bytes, str_eq,
  str_eq_iff, contains, contains_iff, contains-cons, contains-append, ℤ,
}
use verix_dbm.GoMap.{bytes_key, lookup, insert}
use verix_dbm.GoMap.Laws.{lookup-insert}

-- `dbsql.Table`
pub record Relation : Type 0 where
  pub schema : Bytes
  pub name : Bytes
  pub kind : Bytes
  pub est_rows : ℤ

pub record Schema : Type 0 where
  pub name : Bytes
  pub tables : List Relation

-- A row of the catalogue; a schema without a table has a row with none.
pub record Row : Type 0 where
  pub schema : Bytes
  pub table : Option Relation

abbrev pub Grouped : Type 0
Grouped = List Bytes × List (Bytes × Schema)

abbrev pub table_list : Option Relation → List Relation
table_list none = []
table_list (some t) = t ∷ []

abbrev pub grown : Row → Option Schema → Schema
grown r none = record { name = r.schema; tables = table_list r.table }
grown r (some s) = record s { tables = s.tables ++ table_list r.table }

abbrev pub is_new : Option Schema → Bool
is_new none = true
is_new (some s) = false

-- One round of the loop: the order of the names, and the schemas by name.
unfoldable pub add_row : Grouped → Row → Grouped
add_row (order, by_name) r =
    let found = lookup r.schema by_name in
    (
      (if is_new found then order ++ r.schema ∷ [] else order),
      insert r.schema (grown r found) by_name,
    )

unfoldable pub add_rows : Grouped → List Row → Grouped
unfolding add_row
add_rows g [] = g
add_rows g (r ∷ rs) = add_rows (add_row g r) rs

-- A name that is in the order is in the map.
named : List (Bytes × Schema) → Bytes → List Schema
named by_name n = elim (lookup n by_name) [ none ↦ [] | some s ↦ s ∷ [] ]

listed_by : List Bytes → List (Bytes × Schema) → List Schema
unfolding named
listed_by [] by_name = []
listed_by (n ∷ ns) by_name = named by_name n ++ listed_by ns by_name

-- The result of `Schemas`.
unfoldable pub schemas : List Row → List Schema
unfolding add_rows listed_by
schemas rows = let (order, by_name) = add_rows ([], []) rows in listed_by order by_name

-- The tables of a schema among the rows.
abbrev pub tables_of : Bytes → List Row → List Relation
tables_of n [] = []
tables_of n (r ∷ rs) = (if str_eq r.schema n then table_list r.table else []) ++ tables_of n rs

-- The names of the rows, each where it is met first.
abbrev pub first_seen : List Bytes → List Row → List Bytes
first_seen seen [] = seen
first_seen seen (r ∷ rs) =
    let rest = first_seen (if contains seen r.schema then seen else seen ++ r.schema ∷ []) rs in
    rest

-- What the map holds of a name after the rows.
abbrev after_rows : Bytes → List Row → Option Schema → Option Schema
after_rows n [] o = o
after_rows n (r ∷ rs) o = after_rows n rs (if str_eq r.schema n then some (grown r o) else o)

add_row-lookup :
    (n : Bytes) (r : Row) (order : List Bytes) (by_name : List (Bytes × Schema))
    → lookup n (add_row (order, by_name) r).1
      ≡ (if str_eq r.schema n then some (grown r (lookup n by_name)) else lookup n by_name)
unfolding add_row
add_row-lookup n r order by_name = elim (Bool-cases (str_eq r.schema n)) [
  | inr e ↦ rw (lookup-insert r.schema n (grown r (lookup r.schema by_name)) by_name, e) refl
  | inl e ↦
      (let same : r.schema ≡ n = (str_eq_iff r.schema n).0 e in
        rw (lookup-insert r.schema n (grown r (lookup r.schema by_name)) by_name, e)
          (ap (λ k. some (grown r (lookup k by_name))) same))
]

-- Where the map has the names of the order, a name is new in one if it is in the other.
same_order :
    (r : Row) (order : List Bytes) (by_name : List (Bytes × Schema))
    → contains order r.schema ≡ not (is_new (lookup r.schema by_name))
    → (if is_new (lookup r.schema by_name) then order ++ r.schema ∷ [] else order)
      ≡ (if contains order r.schema then order else order ++ r.schema ∷ [])
same_order r order by_name v = ground (arith, v)

add_rows-lookup :
    (n : Bytes) (rows : List Row) (g : Grouped)
    → lookup n (add_rows g rows).1 ≡ after_rows n rows (lookup n g.1)
unfolding add_rows add_row
add_rows-lookup n [] g = refl
add_rows-lookup n (r ∷ rs) (order, by_name) =
    add_rows-lookup n rs (add_row (order, by_name) r)
    ∙ ap (λ o. after_rows n rs o) (add_row-lookup n r order by_name)

-- In the map are the names of the order.
abbrev InOrder : Grouped → Type 0
InOrder g = (n : Bytes) → contains g.0 n ≡ not (is_new (lookup n g.1))

add_row-InOrder : (g : Grouped) (r : Row) → InOrder g → InOrder (add_row g r)
unfolding add_row contains
add_row-InOrder (order, by_name) r v n =
    let l = lookup-insert r.schema n (grown r (lookup r.schema by_name)) by_name in
    let a = contains-append order (r.schema ∷ []) n in
    elim (Bool-cases (str_eq r.schema n)) [
      | inr e ↦ rw (l, e) (ground (arith, a, contains-cons r.schema [] n, e, v n))
      | inl e ↦
          (let same : r.schema ≡ n = (str_eq_iff r.schema n).0 e in
            let known : contains order n ≡ not (is_new (lookup r.schema by_name)) =
              v n ∙ ap (λ k. not (is_new (lookup k by_name))) (sym same) in
            rw (l, e) (ground (arith, a, contains-cons r.schema [] n, e, known)))
    ]

add_rows-InOrder : (g : Grouped) (rows : List Row) → InOrder g → InOrder (add_rows g rows)
unfolding add_rows
add_rows-InOrder g [] v = v
add_rows-InOrder g (r ∷ rs) v = add_rows-InOrder (add_row g r) rs (add_row-InOrder g r v)

add_rows-first_seen :
    (g : Grouped) (rows : List Row) → InOrder g → (add_rows g rows).0 ≡ first_seen g.0 rows
unfolding add_rows add_row
add_rows-first_seen g [] v = refl
add_rows-first_seen (order, by_name) (r ∷ rs) v =
    add_rows-first_seen (add_row (order, by_name) r) rs (add_row-InOrder (order, by_name) r v)
    ∙ ap (λ seen. first_seen seen rs) (same_order r order by_name (v r.schema))

-- The schema of a name, from its rows.
abbrev pub schema_of : List Row → Bytes → Schema
schema_of rows n = record { name = n; tables = tables_of n rows }

after_rows-some :
    (n : Bytes) (rows : List Row) (s : Schema)
    → after_rows n rows (some s) ≡ some (record s { tables = s.tables ++ tables_of n rows })
after_rows-some n [] s = ap (λ ts. some (record s { tables = ts })) (sym (append-nil s.tables))
after_rows-some n (r ∷ rs) s = elim (Bool-cases (str_eq r.schema n)) [
  | inr e ↦ rw e (after_rows-some n rs s)
  | inl e ↦ rw e (
      after_rows-some n rs (record s { tables = s.tables ++ table_list r.table })
      ∙ ap (λ ts. some (record s { tables = ts }))
          (append_assoc s.tables (table_list r.table) (tables_of n rs)))
]

after_rows-none :
    (n : Bytes) (rows : List Row)
    → (after_rows n rows none ≡ none) ⊎ (after_rows n rows none ≡ some (schema_of rows n))
after_rows-none n [] = inl refl
after_rows-none n (r ∷ rs) = elim (Bool-cases (str_eq r.schema n)) [
  | inr e ↦ rw e (after_rows-none n rs)
  | inl e ↦ inr (
      rw e (
        after_rows-some n rs (grown r none)
        ∙ ap (λ k. some (record { name = k; tables = table_list r.table ++ tables_of n rs }))
            ((str_eq_iff r.schema n).0 e)))
]

listed_by-map :
    (rows : List Row) (by_name : List (Bytes × Schema)) (ns : List Bytes)
    → ((n : Bytes) → OneOf n ns → lookup n by_name ≡ some (schema_of rows n))
    → listed_by ns by_name ≡ map (schema_of rows) ns
unfolding listed_by named
listed_by-map rows by_name [] h = refl
listed_by-map rows by_name (n ∷ ns) h =
    rw (listed_by, named, h n (inl refl), listed_by-map rows by_name ns (λ m o. h m (inr o))) refl

starts : InOrder ([], [])
unfolding contains lookup
starts n = refl

found_in :
    (rows : List Row) (n : Bytes)
    → let g = add_rows ([], []) rows in
      contains g.0 n ≡ not (is_new (lookup n g.1))
      → OneOf n g.0
      → lookup n g.1 ≡ some (schema_of rows n)
unfolding lookup
found_in rows n v o =
    let g = add_rows ([], []) rows in
    let l = add_rows-lookup n rows ([], []) in
    let c = (contains_iff g.0 n).1 o in
    elim (after_rows-none n rows) [
      | inr s ↦ l ∙ s
      | inl s ↦ absurd (let q = ap (λ x. not (is_new x)) (l ∙ s) in ground (arith, v, c, q))
    ]

-- The result has each schema of the rows once, in the order in which they are met, and under it the
-- tables of all its rows, in their order.
pub schemas_lem : (rows : List Row) → schemas rows ≡ map (schema_of rows) (first_seen [] rows)
unfolding schemas
schemas_lem rows =
    let g = add_rows ([], []) rows in
    let start = starts in
    let order : g.0 ≡ first_seen [] rows = add_rows-first_seen ([], []) rows start in
    listed_by-map rows g.1 g.0 (λ n o. found_in rows n (add_rows-InOrder ([], []) rows start n) o)
    ∙ ap (λ ns. map (schema_of rows) ns) order
