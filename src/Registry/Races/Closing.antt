-- ===== src/Registry/Races/Closing.antt =====
-- The steps that close pools: the janitor and deletions.
use verix_dbm.Base.{
  ℕ, ◌≡◌, refl, sym, ap, ◌∙◌, subst, ◌≢◌, ◌⊎◌, inl, inr, Bool, true, Option, none, some, List, [],
  ◌∷◌, ◌++◌, arith, ◌==◌, if◌then◌else◌, ==_iff, Bool-cases, OneOf,
}
use verix_dbm.GoMap.{nat_key, lookup, Distinct}
use verix_dbm.GoMap.Laws.{lookup-delete, lookup-sweep, unless, delete-Distinct, sweep-Distinct}
use verix_dbm.Registry.{
  Family, Handle, Entry, Registry, Pools, pg, mysql, sqlite, redis, mongo, is_idle, janitor, forget,
  picked, handles, of_all,
}
use verix_dbm.Registry.Reuse.{pool_of, handle_of, handle_of-if, IsRegistry}
use verix_dbm.Registry.Races.{World, IsSafe}

OneOf-append-cases :
    (x : Handle) (hs bs : List Handle) → OneOf x (hs ++ bs) → OneOf x hs ⊎ OneOf x bs
OneOf-append-cases x [] bs m = inr m
OneOf-append-cases x (h ∷ hs) bs (inl q) = inl (inl q)
OneOf-append-cases x (h ∷ hs) bs (inr m) = elim (OneOf-append-cases x hs bs m) [
  | inl n ↦ inl (inr n)
  | inr n ↦ inr n
]

-- Pools are taken out and closed.
shrink-IsSafe :
    (w : World) (r : Registry) (cs : List Handle)
    → IsRegistry r
    → r.closed ≡ cs ++ w.registry.closed
    → ((g : Family) (j : ℕ) (k : Handle) → pool_of r g j ≡ some k → pool_of w.registry g j ≡ some k)
    → ((x : Handle)
        → OneOf x cs
        → (f : Family) × (id : ℕ) × (pool_of w.registry f id ≡ some x) × (pool_of r f id ≡ none))
    → IsSafe w
    → IsSafe (record w { registry = r })
shrink-IsSafe w r cs d c keeps taken s = record {
  maps = d;
  owned = λ g j k e. s.owned g j k (keeps g j k e);
  usable = λ g j k e. (
    λ y m x. elim (OneOf-append-cases y cs w.registry.closed (subst (λ l. OneOf y l) c m)) [
      | inr n ↦ (s.usable g j k (keeps g j k e)).0 y n x
      | inl n ↦
          (let (f, id, p, q) = taken y n in
            let a = s.owned f id y p in
            let b = s.owned g j k (keeps g j k e) in
            let ff : f ≡ g = sym a.0 ∙ ap (λ (h : Handle). h.family) x ∙ b.0 in
            let ii : id ≡ j = sym a.1 ∙ ap (λ (h : Handle). h.conn_id) x ∙ b.1 in
            let t : pool_of r g j ≡ none =
              subst (λ f'. pool_of r f' j ≡ none) ff (subst (λ i. pool_of r f i ≡ none) ii q) in
            cc)
    ],
    (s.usable g j k (keeps g j k e)).1,
  );
  flying = λ h m. (
    (s.flying h m).0,
    λ y n x. elim (OneOf-append-cases y cs w.registry.closed (subst (λ l. OneOf y l) c n)) [
      | inr n' ↦ (s.flying h m).1 y n' x
      | inl n' ↦ (let (f, id, p, q) = taken y n' in (s.usable f id y p).1 h m (sym x))
    ],
  );
  old = λ y m. elim (OneOf-append-cases y cs w.registry.closed (subst (λ l. OneOf y l) c m)) [
    | inr n ↦ s.old y n
    | inl n ↦ (let (f, id, p, q) = taken y n in (s.owned f id y p).2)
  ];
}

of_all-OneOf :
    (x : Handle) (g : Family → List Handle) → OneOf x (of_all g) → (f : Family) × OneOf x (g f)
of_all-OneOf x g m = elim (OneOf-append-cases x (g pg) _ m) [
  | inl n ↦ (pg, n)
  | inr m1 ↦ elim (OneOf-append-cases x (g mysql) _ m1) [
    | inl n ↦ (mysql, n)
    | inr m2 ↦ elim (OneOf-append-cases x (g sqlite) _ m2) [
      | inl n ↦ (sqlite, n)
      | inr m3 ↦ elim (OneOf-append-cases x (g redis) _ m3) [
        | inl n ↦ (redis, n)
        | inr n ↦ (mongo, n)
      ]
    ]
  ]
]

handles-OneOf : (x : Handle) (o : Option Entry) → OneOf x (handles o) → handle_of o ≡ some x
unfolding handles
handles-OneOf x none m = absurd m
handles-OneOf x (some e) (inl q) = ap (λ h. some h) (sym q)
handles-OneOf x (some e) (inr m) = absurd m

forget-pool_of :
    (r : Registry) (id : ℕ) (g : Family) (j : ℕ)
    → IsRegistry r
    → pool_of (forget r id) g j ≡ (if id == j then none else pool_of r g j)
unfolding forget
forget-pool_of r id g j d = rw (lookup-delete id j (r.pools g) (d g)) (handle_of-if (id == j) _)

forget-keeps :
    (r : Registry) (id : ℕ) (g : Family) (j : ℕ) (k : Handle)
    → IsRegistry r
    → pool_of (forget r id) g j ≡ some k
    → pool_of r g j ≡ some k
forget-keeps r id g j k d e = elim (Bool-cases (id == j)) [
  | inl q ↦ (let t = sym (forget-pool_of r id g j d) ∙ e in let u : none ≡ some k = rw q at t in cc)
  | inr q ↦ (let t = sym (forget-pool_of r id g j d) ∙ e in rw q at t)
]

pub forget-IsSafe :
    (w : World) (id : ℕ) → IsSafe w → IsSafe (record w { registry = forget w.registry id })
unfolding forget
forget-IsSafe w id s =
    shrink-IsSafe w (forget w.registry id) (of_all (λ f. handles (lookup id (w.registry.pools f))))
      (λ f. delete-Distinct id (w.registry.pools f) (s.maps f)) refl
      (λ g j k e. forget-keeps w.registry id g j k s.maps e)
      (λ x m.
        let (f, n) = of_all-OneOf x (λ f. handles (lookup id (w.registry.pools f))) m in
        (
          f,
          id,
          handles-OneOf x _ n,
          forget-pool_of w.registry id f id s.maps ∙ rw ((==_iff id id).1 refl) refl,
        ))
      s

some-none : (e : Entry) → some e ≢ none
some-none e h = cc

lookup-behind :
    (i id : ℕ) (e e' : Entry) (m : Pools)
    → lookup i m ≡ none
    → lookup id m ≡ some e'
    → lookup id ((i, e) ∷ m) ≡ some e'
unfolding lookup
lookup-behind i id e e' m d l = elim (Bool-cases (i == id)) [
  | inr y ↦ rw y l
  | inl y ↦
      (let t : lookup id m ≡ none = subst (λ k. lookup k m ≡ none) ((==_iff i id).0 y) d in
        absurd (some-none e' (sym l ∙ t)))
]

picked-OneOf :
    (p : Entry → Bool) (m : Pools) (x : Handle)
    → Distinct m
    → OneOf x (picked p m)
    → (id : ℕ) × (e : Entry) × (lookup id m ≡ some e) × (p e ≡ true) × (x ≡ e.handle)
unfolding picked lookup
picked-OneOf p [] x d n = absurd n
picked-OneOf p ((i, e) ∷ m) x d n = elim (Bool-cases (p e)) [
  | inl y ↦
      (let t : OneOf x (e.handle ∷ picked p m) = rw y at n in
        elim t [
          | inl q ↦ (i, e, rw ((==_iff i i).1 refl) refl, y, q)
          | inr t' ↦
              (let (id, e', l, y', q) = picked-OneOf p m x d.1 t' in
                (id, e', lookup-behind i id e e' m d.0 l, y', q))
        ])
  | inr y ↦
      (let t : OneOf x (picked p m) = rw y at n in
        let (id, e', l, y', q) = picked-OneOf p m x d.1 t in
        (id, e', lookup-behind i id e e' m d.0 l, y', q))
]

unless-none :
    (p : Entry → Bool) (o : Option Entry) (e : Entry)
    → o ≡ some e
    → p e ≡ true
    → handle_of (unless p o) ≡ none
unless-none p o e h k = rw (h, k) refl

unless-some :
    (p : Entry → Bool) (o : Option Entry) (k : Handle)
    → handle_of (unless p o) ≡ some k
    → handle_of o ≡ some k
unless-some p none k h = h
unless-some p (some e) k h = ground arith

janitor-pool_of :
    (r : Registry) (now : ℕ) (g : Family) (j : ℕ)
    → IsRegistry r
    → pool_of (janitor r now) g j ≡ handle_of (unless (is_idle now) (lookup j (r.pools g)))
unfolding janitor
janitor-pool_of r now g j d = rw (lookup-sweep (is_idle now) j (r.pools g) (d g)) refl

pub janitor-IsSafe :
    (w : World) (now : ℕ) → IsSafe w → IsSafe (record w { registry = janitor w.registry now })
unfolding janitor
janitor-IsSafe w now s =
    shrink-IsSafe w (janitor w.registry now)
      (of_all (λ f. picked (is_idle now) (w.registry.pools f)))
      (λ f. sweep-Distinct (is_idle now) (w.registry.pools f) (s.maps f)) refl
      (λ g j k e.
        unless-some (is_idle now) (lookup j (w.registry.pools g)) k
          (sym (janitor-pool_of w.registry now g j s.maps) ∙ e))
      (λ x m.
        let (f, n) = of_all-OneOf x (λ f. picked (is_idle now) (w.registry.pools f)) m in
        let (id, e, l, i, q) = picked-OneOf (is_idle now) (w.registry.pools f) x (s.maps f) n in
        (
          f,
          id,
          ap handle_of l ∙ ap (λ h. some h) (sym q),
          janitor-pool_of w.registry now f id s.maps ∙ unless-none (is_idle now) _ e l i,
        ))
      s
