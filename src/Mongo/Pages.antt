-- ===== src/Mongo/Pages.antt =====
-- The pages that the browser of documents asks for.
use Prim.Native.Nat.{◌%◌}
use verix_dbm.Base.{
  ℕ, zero, suc, ◌+◌, ◌-◌, ◌*◌, ◌≤◌, ◌<◌, ◌≡◌, refl, sym, ap, ◌∙◌, List, [], ◌∷◌, ◌++◌, arith, ltb,
  length, take, Bytes, max_int, wrapped, pos,
}
use native.Mathlib.Nat.{zero-add}
use verix_dbm.Mongo.{DocPage, clamped_limit, clamped_skip, collect, drop, sent, find_page}

-- The page of a number and a size, as `apiMongoDocs` asks for it.
abbrev pub page_at : ℕ → ℕ → List Bytes → DocPage
page_at number size matching = find_page (pos size) (wrapped (number * size)) matching

-- The pages before a number, one after the other.
abbrev pub pages_before : ℕ → ℕ → List Bytes → List Bytes
pages_before zero size matching = []
pages_before (suc n) size matching = pages_before n size matching ++ (page_at n size matching).docs

collect-take :
    (limit : ℕ) (ds : List Bytes)
    → ((collect limit (take (suc limit) ds)).docs ≡ take limit ds)
      × ((collect limit (take (suc limit) ds)).has_more ≡ ltb limit (length ds))
unfolding collect
collect-take zero [] = (refl, refl)
collect-take zero (d ∷ ds) = (refl, ground arith)
collect-take (suc n) [] = (refl, ground arith)
collect-take (suc n) (d ∷ ds) =
    let (t, m) = collect-take n ds in (ap (λ xs. d ∷ xs) t, ground (arith, m))

take-nil : (k : ℕ) → take {A = Bytes} k [] ≡ []
take-nil zero = refl
take-nil (suc k) = refl

take-drop : (n k : ℕ) (ds : List Bytes) → take n ds ++ take k (drop n ds) ≡ take (n + k) ds
unfolding drop
take-drop zero k ds = ap (λ m. take m ds) (sym (zero-add k))
take-drop (suc n) k [] = let e : suc n + k ≡ suc (n + k) = omega arith in rw e (take-nil k)
take-drop (suc n) k (d ∷ ds) =
    let e : suc n + k ≡ suc (n + k) = omega arith in rw e (ap (λ xs. d ∷ xs) (take-drop n k ds))

length-drop : (n : ℕ) (ds : List Bytes) → length (drop n ds) ≡ length ds - n
unfolding drop
length-drop zero ds = ground arith
length-drop (suc n) [] = ground arith
length-drop (suc n) (d ∷ ds) = ground (arith, length-drop n ds)

clamped_skip-wrapped : (m : ℕ) → m ≤ max_int → clamped_skip (wrapped m) ≡ m
unfolding clamped_skip wrapped
clamped_skip-wrapped m h =
    let small : m % 18446744073709551616 ≡ m = omega (arith, h) in rw small (ground (arith, h))

clamped_limit-kept : (size : ℕ) → 0 < size → size ≤ 1000 → clamped_limit (pos size) ≡ size
unfolding clamped_limit
clamped_limit-kept size p q = ground arith

page_at_lem :
    (n size : ℕ) (matching : List Bytes)
    → 0 < size
    → size ≤ 1000
    → n * size ≤ max_int
    → ((page_at n size matching).docs ≡ take size (drop (n * size) matching))
      × ((page_at n size matching).has_more ≡ ltb (n * size + size) (length matching))
unfolding find_page sent
page_at_lem n size matching p q b =
    let (t, m) = collect-take size (drop (n * size) matching) in
    rw (clamped_limit-kept size p q, clamped_skip-wrapped (n * size) b)
      (t, m ∙ ground (arith, length-drop (n * size) matching))

suc_mul : (n size : ℕ) → suc n * size ≡ n * size + size
suc_mul n size = omega arith

pages_before_lem :
    (n size : ℕ) (matching : List Bytes)
    → 0 < size
    → size ≤ 1000
    → n * size ≤ max_int
    → pages_before n size matching ≡ take (n * size) matching
pages_before_lem zero size matching p q b = let e : 0 * size ≡ 0 = omega arith in rw e refl
pages_before_lem (suc n) size matching p q b =
    let e : suc n * size ≡ n * size + size = suc_mul n size in
    let below : n * size ≤ max_int = omega (arith, e, b) in
    rw (e, pages_before_lem n size matching p q below, (page_at_lem n size matching p q below).0)
      (take-drop (n * size) size matching)

-- With a size between 1 and 1000, as long as an `int` holds the number of documents before a page,
-- the pages before a number are that many documents from the front,
-- each once and in order, and the next page says that there is more exactly if documents are left
-- behind it.
pub pages_before-take :
    (n size : ℕ) (matching : List Bytes)
    → 0 < size
    → size ≤ 1000
    → n * size ≤ max_int
    → (pages_before n size matching ≡ take (n * size) matching)
      × ((page_at n size matching).has_more ≡ ltb (n * size + size) (length matching))
pages_before-take n size matching p q b =
    (pages_before_lem n size matching p q b, (page_at_lem n size matching p q b).1)
