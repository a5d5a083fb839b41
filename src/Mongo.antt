-- ===== src/Mongo.antt =====
-- internal/mongodb/mongodb.go: the screens of the MongoDB console and the pages of documents.
pub mod Pages
use verix_dbm.Base.{
  ℕ, zero, suc, ◌+◌, ◌-◌, ◌*◌, ◌≤◌, ◌<◌, String, ◌≡◌, refl, sym, ap, ◌∙◌, subst, ◌≢◌, ◌↔◌, ◌⊎◌, inl,
  inr, Bool, true, false, not, ◌&&◌, ◌||◌, Option, none, some, List, [], ◌∷◌, ◌++◌, map, append-nil,
  append_assoc, arith, ltb, leb, ◌==◌, if◌then◌else◌, ==_iff, Bool-cases, Option-cases, Bool-ext,
  length, length-append, All, OneOf, keep_if, keep_if-nil, keep_if-cons, length-keep_if-le, take,
  some_of, some_of-take, some_of-append, some_of-keep_if, some_of_elim, some_of_intro,
  keep_if-OneOf, OneOf-keep_if, keep_if_laws, Bytes, codes, str_eq, str_eq_iff, str_eq_refl,
  contains, contains_iff, contains-cons, contains-append, format_int, ◌>>=◌, Result-cases, guard-ok,
  Result, ok, err, max_int, wrapped, ℤ, pos, negsuc,
}
use verix_dbm.GoStrings.{trim_space, to_lower}

mutual
  -- A value as `json.Unmarshal` reads it.
  pub data Json : Type 0 where
    scalar : Json
    object : Members → Json
    array : Items → Json

  pub data Members : Type 0 where
    no_members : Members
    member : Bytes → Json → Members → Members

  pub data Items : Type 0 where
    no_items : Items
    item : Json → Items → Items

-- The packages `bson` and `encoding/json`: whether a text is a document, the names of the fields of
-- an ordered document, and the value of a text.
pub record Bson : Type 0 where
  pub is_document : Bytes → Bool
  pub field_names : Bytes → Option (List Bytes)
  pub unmarshal : Bytes → Option Json

unfoldable pub is_server_js : Bytes → Bool
is_server_js key =
    contains (map codes ("$where" ∷ "$function" ∷ "$accumulator" ∷ [])) (to_lower key)

mutual
  unfolding is_server_js

  pub walk_server_js : Json → Bool
  walk_server_js scalar = false
  walk_server_js (object ms) = walk_members ms
  walk_server_js (array vs) = walk_items vs

  pub walk_members : Members → Bool
  walk_members no_members = false
  walk_members (member key sub ms) = is_server_js key || (walk_server_js sub || walk_members ms)

  pub walk_items : Items → Bool
  walk_items no_items = false
  walk_items (item sub vs) = walk_server_js sub || walk_items vs

walk_parsed : Option Json → Bool
walk_parsed none = false
walk_parsed (some v) = walk_server_js v

unfoldable pub uses_server_js : Bson → List Bytes → Bool
unfolding walk_parsed
uses_server_js bson [] = false
uses_server_js bson (d ∷ ds) =
    let rest = uses_server_js bson ds in
    if str_eq (trim_space d) [] then rest else walk_parsed (bson.unmarshal d) || rest

abbrev pub mongo_read_words : List String
mongo_read_words =
    "find" ∷ "aggregate" ∷ "count" ∷ "distinct" ∷ "listcollections" ∷ "listindexes"
    ∷ "listdatabases" ∷ "dbstats" ∷ "collstats" ∷ "connectionstatus" ∷ "explain" ∷ "getmore"
    ∷ "ping" ∷ "hello" ∷ "ismaster" ∷ "buildinfo" ∷ "serverstatus" ∷ []

abbrev pub mongo_dangerous_words : List String
mongo_dangerous_words =
    "drop" ∷ "dropdatabase" ∷ "dropindexes" ∷ "dropconnections" ∷ "shutdown" ∷ "fsync"
    ∷ "killallsessions" ∷ "killallsessionsbypattern" ∷ "killop" ∷ "killcursors" ∷ "setparameter"
    ∷ "setfeaturecompatibilityversion" ∷ "replsetreconfig" ∷ "replsetstepdown" ∷ "logrotate"
    ∷ "flushrouterconfig" ∷ "mapreduce" ∷ "eval" ∷ []

unfoldable pub mongo_read_allowed : Bytes → Bool
mongo_read_allowed name = contains (map codes mongo_read_words) name

unfoldable pub mongo_needs_confirm : Bytes → Bool
mongo_needs_confirm name = contains (map codes mongo_dangerous_words) name

pub data CommandError : Type 0 where
  not_parsed : CommandError
  empty_command : CommandError

unfoldable pub command_name : Bson → Bytes → Result CommandError Bytes
command_name bson cmd = elim (bson.field_names cmd) [
  | none ↦ err not_parsed
  | some [] ↦ err empty_command
  | some (name ∷ names) ↦ ok (to_lower name)
]

abbrev pub max_docs : ℕ
max_docs = 1000

abbrev pub page_docs : ℕ
page_docs = 50

-- The bounds in `Find`.
unfoldable pub clamped_limit : ℤ → ℕ
clamped_limit (negsuc n) = page_docs
clamped_limit (pos n) = if (n == 0) || ltb max_docs n then page_docs else n

unfoldable pub clamped_skip : ℤ → ℕ
clamped_skip (pos n) = n
clamped_skip (negsuc n) = 0

pub record DocPage : Type 0 where
  pub docs : List Bytes
  pub has_more : Bool

-- The loop over the cursor: `room` is what is left of the limit.
unfoldable pub collect : ℕ → List Bytes → DocPage
collect room [] = record { docs = []; has_more = false }
collect zero (d ∷ ds) = record { docs = []; has_more = true }
collect (suc room) (d ∷ ds) =
    let rest = collect room ds in record { docs = d ∷ rest.docs; has_more = rest.has_more }

drop : ℕ → List Bytes → List Bytes
drop zero ds = ds
drop (suc n) [] = []
drop (suc n) (d ∷ ds) = drop n ds

-- What the server sends of the documents that match: `SetSkip(skip)` and `SetLimit(limit + 1)`.
unfoldable pub sent : ℕ → ℕ → List Bytes → List Bytes
unfolding drop
sent limit skip matching = take (suc limit) (drop skip matching)

-- `Find`, once its documents are parsed, at the documents that match.
unfoldable pub find_page : ℤ → ℤ → List Bytes → DocPage
unfolding clamped_limit clamped_skip collect sent
find_page limit skip matching =
    collect (clamped_limit limit) (sent (clamped_limit limit) (clamped_skip skip) matching)
