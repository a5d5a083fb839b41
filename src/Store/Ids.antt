-- ===== src/Store/Ids.antt =====
-- The primary key of the connections table: an id finds one row.
use verix_dbm.Base.{
  ℕ, ◌≡◌, sym, subst, ◌≢◌, inl, inr, some, List, [], ◌∷◌, arith, ◌==◌, Bool-cases, All, OneOf,
}
use verix_dbm.Store.{Connection, find_row}

-- No row of the list has the id.
abbrev pub Unused : ℕ → List Connection → Type 0
Unused id = All (λ (c : Connection). c.id ≢ id)

abbrev pub UniqueIds : List Connection → Type 0
UniqueIds [] = Unit {0}
UniqueIds (c ∷ cs) = Unused c.id cs × UniqueIds cs

pub find_row-OneOf :
    (id : ℕ) (cs : List Connection) (c : Connection)
    → find_row id cs ≡ some c
    → OneOf c cs × (c.id ≡ id)
unfolding find_row
find_row-OneOf id [] c h = cc
find_row-OneOf id (d ∷ cs) c h = elim (Bool-cases (d.id == id)) [
  | inl e ↦ (inl (ground arith), ground arith)
  | inr e ↦ let ih = find_row-OneOf id cs c (ground arith) in (inr ih.0, ih.1)
]

Unused-OneOf :
    (id : ℕ) (cs : List Connection) (c : Connection) → Unused id cs → OneOf c cs → c.id ≢ id
Unused-OneOf id [] c u m = absurd m
Unused-OneOf id (d ∷ cs) c (n, u) (inl q) = subst (λ (x : Connection). x.id ≢ id) (sym q) n
Unused-OneOf id (d ∷ cs) c (n, u) (inr q) = Unused-OneOf id cs c u q

pub OneOf-find_row :
    (cs : List Connection) (c : Connection) → UniqueIds cs → OneOf c cs → find_row c.id cs ≡ some c
unfolding find_row
OneOf-find_row [] c u m = absurd m
OneOf-find_row (d ∷ cs) c u (inl q) = ground arith
OneOf-find_row (d ∷ cs) c (n, u) (inr q) =
    ground (arith, OneOf-find_row cs c u q, Unused-OneOf d.id cs c n q)
