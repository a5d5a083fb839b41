-- ===== src/Auth/Roles/Merge.antt =====
-- `mergeRoles` against membership in its lists.
use verix_dbm.Base.{
  ◌≡◌, refl, sym, ◌∙◌, inl, inr, Bool, false, not, ◌&&◌, ◌||◌, List, [], ◌∷◌, ◌++◌, arith,
  Bool-cases, Bytes, str_eq, str_eq_iff, contains, contains-append,
}
use verix_dbm.Auth.Roles.{User, merge_list, merge_lists, merge_roles, subjects}

abbrev pub NoRepeats : List Bytes → Type 0
NoRepeats [] = Unit {0}
NoRepeats (x ∷ xs) = (contains xs x ≡ false) × NoRepeats xs

-- `s` stands in one of the lists.
pub in_some : List (List Bytes) → Bytes → Bool
in_some [] s = false
in_some (l ∷ ls) s = contains l s || in_some ls s

-- The map holds what the result holds.
record Inv (seen out : List Bytes) : Type 0 where
  same : (s : Bytes) → contains seen s ≡ contains out s
  once : NoRepeats out

contains-snoc :
    (out : List Bytes) (r s : Bytes) → contains (out ++ r ∷ []) s ≡ (contains out s || str_eq r s)
unfolding contains
contains-snoc out r s = ground (arith, contains-append out (r ∷ []) s)

snoc-NoRepeats :
    (out : List Bytes) (r : Bytes)
    → NoRepeats out
    → contains out r ≡ false
    → NoRepeats (out ++ r ∷ [])
unfolding contains
snoc-NoRepeats [] r d h = (refl, tt)
snoc-NoRepeats (x ∷ out) r d h =
    ground (arith, contains-snoc out r x, str_eq_iff r x, str_eq_iff x r, snoc-NoRepeats out r)

add-Inv :
    (seen out : List Bytes) (r : Bytes)
    → Inv seen out
    → contains seen r ≡ false
    → Inv (r ∷ seen) (out ++ r ∷ [])
unfolding contains
add-Inv seen out r v h = record {
  same = λ s. ground (arith, v.same s, contains-snoc out r s);
  once = snoc-NoRepeats out r v.once (sym (v.same r) ∙ h);
}

-- A pass over one list adds its texts, but for the empty one.
record Merged (l out : List Bytes) (r : List Bytes × List Bytes) : Type 0 where
  inv : Inv r.0 r.1
  adds : (s : Bytes) → contains r.1 s ≡ (contains out s || (contains l s && not (str_eq s [])))

merge_list-Merged : (l seen out : List Bytes) → Inv seen out → Merged l out (merge_list l seen out)
unfolding merge_list contains
merge_list-Merged [] seen out v = record { inv = v; adds = λ s. ground arith }
merge_list-Merged (r ∷ rs) seen out v = elim (Bool-cases (str_eq r [] || contains seen r)) [
  | inl skip ↦
      rw (skip, merge_list)
        (let ih = merge_list-Merged rs seen out v in
          record {
            inv = ih.inv;
            adds = λ s. ground (
              arith,
              ih.adds s,
              v.same r,
              str_eq_iff r [],
              str_eq_iff r s,
              str_eq_iff s [],
              v.same s,
            );
          })
  | inr take ↦
      rw (take, merge_list)
        (let ih =
            merge_list-Merged rs (r ∷ seen) (out ++ r ∷ []) (add-Inv seen out r v (ground arith)) in
          record {
            inv = ih.inv;
            adds = λ s. ground (
              arith,
              ih.adds s,
              contains-snoc out r s,
              str_eq_iff r [],
              str_eq_iff r s,
              str_eq_iff s [],
            );
          })
]

record MergedAll (ls : List (List Bytes)) (out r : List Bytes) : Type 0 where
  once : NoRepeats r
  adds : (s : Bytes) → contains r s ≡ (contains out s || (in_some ls s && not (str_eq s [])))

merge_lists-MergedAll :
    (ls : List (List Bytes)) (seen out : List Bytes)
    → Inv seen out
    → MergedAll ls out (merge_lists ls seen out)
unfolding merge_lists in_some
merge_lists-MergedAll [] seen out v = record { once = v.once; adds = λ s. ground arith }
merge_lists-MergedAll (l ∷ ls) seen out v =
    let step = merge_list-Merged l seen out v in
    let ih =
      merge_lists-MergedAll ls (merge_list l seen out).0 (merge_list l seen out).1 step.inv in
    record { once = ih.once; adds = λ s. ground (arith, ih.adds s, step.adds s) }

-- A merged list holds exactly the non-empty texts of its lists, and each of them once.
pub merge_roles_lem :
    (ls : List (List Bytes))
    → NoRepeats (merge_roles ls)
      × ((s : Bytes) → contains (merge_roles ls) s ≡ (in_some ls s && not (str_eq s [])))
unfolding merge_roles contains
merge_roles_lem ls =
    let all = merge_lists-MergedAll ls [] [] (record { same = λ s. refl; once = tt }) in
    (all.once, all.adds)

-- The identifiers of a user that grants may name are its roles and its groups.
pub contains-subjects :
    (u : User) (s : Bytes)
    → contains (subjects u) s ≡ ((contains u.roles s || contains u.groups s) && not (str_eq s []))
unfolding subjects in_some
contains-subjects u s = ground (arith, (merge_roles_lem (u.roles ∷ u.groups ∷ [])).1 s)
