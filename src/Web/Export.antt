-- ===== src/Web/Export.antt =====
-- internal/web/handlers_export.go: what the files that are downloaded hold.
use verix_dbm.Base.{
  ℕ, Bool, ◌&&◌, ◌||◌, List, [], ◌∷◌, ◌++◌, map, leb, ◌==◌, if◌then◌else◌, Bytes, codes, str_eq,
}
use verix_dbm.GoMap.{bytes_key, insert}
use verix_dbm.Web.Responses.{Table, Value, csv_file, json_file}

-- The bytes that make a spreadsheet read a cell as a formula.
unfoldable pub opens_formula : ℕ → Bool
opens_formula c =
    (c == b'=') || ((c == b'+') || ((c == b'-') || ((c == b'@') || ((c == 9) || (c == 13)))))

unfoldable pub csv_safe : Bytes → Bytes
unfolding opens_formula
csv_safe [] = []
csv_safe (c ∷ s) = if opens_formula c then b'\'' ∷ c ∷ s else c ∷ s

-- A byte of a name that is kept. A character of several bytes becomes one underscore.
unfoldable pub is_plain : ℕ → Bool
is_plain c =
    (leb b'a' c && leb c b'z')
    || ((leb b'A' c && leb c b'Z') || ((leb b'0' c && leb c b'9') || ((c == b'_') || (c == b'-'))))

-- One underscore for each character that is not plain: the names are UTF-8, in which the bytes from
-- 128 to 191 go on with a character.
unfoldable pub sanitize_filename : Bytes → Bytes
unfolding is_plain
sanitize_filename [] = []
sanitize_filename (c ∷ s) =
    let rest = sanitize_filename s in
    if leb 128 c && leb c 191 then rest else (if is_plain c then c else b'_') ∷ rest

-- A row as an object: of two columns with one name the later stays.
unfoldable pub row_object : List Bytes → List Bytes → List (Bytes × Bytes) → List (Bytes × Bytes)
row_object [] row obj = obj
row_object (col ∷ cols) [] obj = obj
row_object (col ∷ cols) (v ∷ row) obj = row_object cols row (insert col v obj)

-- The column names are written as they are.
unfoldable pub csv_lines : Table → List (List Bytes)
unfolding csv_safe
csv_lines t = t.columns ∷ map (λ row. map csv_safe row) t.rows

unfoldable pub json_rows : Table → List (List (Bytes × Bytes))
unfolding row_object
json_rows t = map (λ row. row_object t.columns row []) t.rows

unfoldable pub export_format : Bytes → Bytes
export_format format = if str_eq format (codes "json") then format else codes "csv"

unfoldable pub export_file : Bytes → Bytes → Bytes → Table → Value
unfolding csv_lines json_rows sanitize_filename
export_file format schema table t =
    let name = sanitize_filename (schema ++ codes "_" ++ table) ++ codes "." ++ format in
    if str_eq format (codes "json")
    then json_file name (json_rows t)
    else csv_file name (csv_lines t)
