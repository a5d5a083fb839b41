-- ===== src/Registry/Races/Opening.antt =====
-- The steps that look pools up, open and enter them.
use verix_dbm.Base.{
  ℕ, suc, ◌<◌, ◌≡◌, refl, sym, ap, ◌∙◌, subst, ◌≢◌, ◌⊎◌, inl, inr, Bool, true, false, not, ◌&&◌,
  Option, some, List, ◌∷◌, arith, ◌==◌, if◌then◌else◌, ==_iff, Bool-cases, Option-cases, OneOf,
  keep_if-OneOf,
}
use verix_dbm.GoMap.{nat_key, lookup, insert}
use verix_dbm.GoMap.Laws.{lookup-insert, insert-Distinct}
use verix_dbm.Registry.{
  Family, Handle, Entry, Registry, pg, mysql, sqlite, redis, mongo, same, with_pools, touched, find,
  enter,
}
use verix_dbm.Registry.Reuse.{pool_of, handle_of, IsRegistry, find-none, find-some}
use verix_dbm.Registry.Races.{World, others_of, IsSafe}

same_elim : (f g : Family) → same f g ≡ true → f ≡ g
unfolding same
same_elim pg pg h = refl
same_elim mysql mysql h = refl
same_elim sqlite sqlite h = refl
same_elim redis redis h = refl
same_elim mongo mongo h = refl
same_elim pg mysql h = cc
same_elim pg sqlite h = cc
same_elim pg redis h = cc
same_elim pg mongo h = cc
same_elim mysql pg h = cc
same_elim mysql sqlite h = cc
same_elim mysql redis h = cc
same_elim mysql mongo h = cc
same_elim sqlite pg h = cc
same_elim sqlite mysql h = cc
same_elim sqlite redis h = cc
same_elim sqlite mongo h = cc
same_elim redis pg h = cc
same_elim redis mysql h = cc
same_elim redis sqlite h = cc
same_elim redis mongo h = cc
same_elim mongo pg h = cc
same_elim mongo mysql h = cc
same_elim mongo sqlite h = cc
same_elim mongo redis h = cc

handle_if :
    (b : Bool) (o o' : Option Entry)
    → handle_of (if b then o else o') ≡ (if b then handle_of o else handle_of o')
handle_if true o o' = refl
handle_if false o o' = refl

written-pool_of :
    (r : Registry) (f g : Family) (id j : ℕ) (e : Entry)
    → pool_of (with_pools r f (insert id e (r.pools f))) g j
      ≡ (if same f g && (id == j) then some e.handle else pool_of r g j)
unfolding with_pools
written-pool_of r f g id j e = elim (Bool-cases (same f g)) [
  | inr n ↦ rw n refl
  | inl y ↦
      (let t : handle_of (lookup j (insert id e (r.pools f)))
            ≡ (if id == j then some e.handle else pool_of r f j) =
          rw (lookup-insert id j e (r.pools f))
            (handle_if (id == j) (some e) (lookup j (r.pools f))) in
        rw y (
          subst
            (λ k.
              handle_of (lookup j (insert id e (r.pools f)))
              ≡ (if id == j then some e.handle else pool_of r k j))
            (same_elim f g y) t))
]

find-pool_of_any :
    (r : Registry) (f g : Family) (id j now : ℕ) → pool_of (find r f id now).0 g j ≡ pool_of r g j
unfolding touched
find-pool_of_any r f g id j now = elim (Option-cases (lookup id (r.pools f))) [
  | inl n ↦ rw (find-none r f id now n) refl
  | inr (e, n) ↦
      rw (find-some r f id now e n, written-pool_of r f g id j (touched e now))
        (elim (Bool-cases (same f g)) [
          | inr d ↦ rw d refl
          | inl y ↦ elim (Bool-cases (id == j)) [
            | inr d ↦ rw (y, d) refl
            | inl q ↦
                rw (y, q)
                  (sym (
                    ap handle_of (
                      subst (λ k. lookup j (r.pools k) ≡ some e) (same_elim f g y)
                        (subst (λ k. lookup k (r.pools f) ≡ some e) ((==_iff id j).0 q) n))))
          ]
        ])
]

find-closed : (r : Registry) (f : Family) (id now : ℕ) → (find r f id now).0.closed ≡ r.closed
unfolding with_pools
find-closed r f id now = elim (Option-cases (lookup id (r.pools f))) [
  | inl n ↦ rw (find-none r f id now n) refl
  | inr (e, n) ↦ rw (find-some r f id now e n) refl
]

written-IsRegistry :
    (r : Registry) (f : Family) (id : ℕ) (e : Entry)
    → IsRegistry r
    → IsRegistry (with_pools r f (insert id e (r.pools f)))
unfolding with_pools
written-IsRegistry r f id e d g = elim (Bool-cases (same f g)) [
  | inr n ↦ rw n (d g)
  | inl y ↦ rw y (insert-Distinct id e (r.pools f) (d f))
]

find-IsRegistry :
    (r : Registry) (f : Family) (id now : ℕ) → IsRegistry r → IsRegistry (find r f id now).0
find-IsRegistry r f id now d = elim (Option-cases (lookup id (r.pools f))) [
  | inl n ↦ rw (find-none r f id now n) d
  | inr (e, n) ↦ rw (find-some r f id now e n) (written-IsRegistry r f id (touched e now) d)
]

pub find-IsSafe :
    (w : World) (f : Family) (id now : ℕ)
    → IsSafe w
    → IsSafe (record w { registry = (find w.registry f id now).0 })
find-IsSafe w f id now s = record {
  maps = find-IsRegistry w.registry f id now s.maps;
  owned = λ g j h k. s.owned g j h (sym (find-pool_of_any w.registry f g id j now) ∙ k);
  usable = λ g j h k.
      rw (find-closed w.registry f id now)
        (s.usable g j h (sym (find-pool_of_any w.registry f g id j now) ∙ k));
  flying = λ h m. rw (find-closed w.registry f id now) (s.flying h m);
  old = λ h m. s.old h (subst (λ c. OneOf h c) (find-closed w.registry f id now) m);
}

pub open-IsSafe :
    (w : World) (h : Handle)
    → h.serial ≡ w.next
    → IsSafe w
    → IsSafe (record w { flights = h ∷ w.flights; next = suc w.next })
open-IsSafe w h n s = record {
  maps = s.maps;
  owned = λ g j k e. let o = s.owned g j k e in (o.0, o.1, omega (arith, o.2));
  usable = λ g j k e.
      let u = s.usable g j k e in
      let o = s.owned g j k e in
      (
        u.0,
        λ i m. elim m [
          | inl q ↦ (λ x.
              let z : k.serial ≡ w.next = ap (λ (y : Handle). y.serial) (sym x ∙ q) ∙ n in
              absurd (omega (arith, o.2, z)))
          | inr m' ↦ u.1 i m'
        ],
      );
  flying = λ k m. elim m [
    | inl q ↦
        (let z : k.serial ≡ w.next = ap (λ (y : Handle). y.serial) q ∙ n in
          (
            omega (arith, z),
            λ g c x.
                let t : g.serial ≡ w.next = ap (λ (y : Handle). y.serial) x ∙ z in
                absurd (omega (arith, s.old g c, t)),
          ))
    | inr m' ↦ (let t = s.flying k m' in (omega (arith, t.0), t.1))
  ];
  old = λ k m. omega (arith, s.old k m);
}

abbrev IsEntered : Handle → Family → ℕ → Handle → Type 0
IsEntered h g j k = (h ≡ k) × (h.family ≡ g) × (h.conn_id ≡ j)

enter-cases :
    (r : Registry) (h : Handle) (now : ℕ) (g : Family) (j : ℕ) (k : Handle)
    → pool_of (enter r h now) g j ≡ some k
    → IsEntered h g j k ⊎ (pool_of r g j ≡ some k)
unfolding enter
enter-cases r h now g j k e =
    let t =
      sym (written-pool_of r h.family g h.conn_id j (record { handle = h; last_used = now })) ∙ e in
    elim (Bool-cases (same h.family g)) [
      | inr d ↦ inr (rw d at t)
      | inl y ↦ elim (Bool-cases (h.conn_id == j)) [
        | inr d ↦ inr (rw (y, d) at t)
        | inl q ↦
            (let u : some h ≡ some k = rw (y, q) at t in
              inl (ground arith, same_elim h.family g y, (==_iff h.conn_id j).0 q))
      ]
    ]

-- A flight that goes on has another number.
others_of-OneOf :
    (h g : Handle) (hs : List Handle)
    → OneOf g (others_of h hs)
    → OneOf g hs × (g.serial == h.serial ≡ false)
unfolding others_of
others_of-OneOf h g hs m =
    let t = keep_if-OneOf (λ (i : Handle). not (i.serial == h.serial)) hs g m in
    (t.0, ground (arith, t.1))

others_of-other : (h k g : Handle) (hs : List Handle) → h ≡ k → OneOf g (others_of h hs) → g ≢ k
others_of-other h k g hs q m x =
    let t = (others_of-OneOf h g hs m).1 in
    let z = (==_iff g.serial h.serial).1 (ap (λ (y : Handle). y.serial) (x ∙ sym q)) in cc

pub enter-IsSafe :
    (w : World) (h : Handle) (now : ℕ)
    → OneOf h w.flights
    → IsSafe w
    → IsSafe (record w { registry = enter w.registry h now; flights = others_of h w.flights })
unfolding enter with_pools
enter-IsSafe w h now m s = record {
  maps =
      written-IsRegistry w.registry h.family h.conn_id (record { handle = h; last_used = now })
        s.maps;
  owned = λ g j k e. elim (enter-cases w.registry h now g j k e) [
    | inl (q, ff, ii) ↦
        subst (λ x. (x.family ≡ g) × (x.conn_id ≡ j) × (x.serial < w.next)) q
          (ff, ii, (s.flying h m).0)
    | inr e' ↦ s.owned g j k e'
  ];
  usable = λ g j k e. elim (enter-cases w.registry h now g j k e) [
    | inl (q, ff, ii) ↦
        (λ i c x. (s.flying h m).1 i c (x ∙ sym q), λ i c. others_of-other h k i w.flights q c)
    | inr e' ↦
        ((s.usable g j k e').0, λ i c. (s.usable g j k e').1 i (others_of-OneOf h i w.flights c).0)
  ];
  flying = λ k n. s.flying k (others_of-OneOf h k w.flights n).0;
  old = λ k n. s.old k n;
}

newer : (w : World) (h k i : Handle) → h.serial ≡ w.next → k.serial < w.next → i ≡ h → i ≢ k
newer w h k i n o q x =
    let z : k.serial ≡ w.next = ap (λ (y : Handle). y.serial) (sym x ∙ q) ∙ n in
    absurd (omega (arith, o, z))

pub fail-IsSafe :
    (w : World) (h : Handle)
    → h.serial ≡ w.next
    → IsSafe w
    → IsSafe (record w {
      registry = record w.registry { closed = h ∷ w.registry.closed };
      next = suc w.next;
    })
fail-IsSafe w h n s = record {
  maps = s.maps;
  owned = λ g j k e. let o = s.owned g j k e in (o.0, o.1, omega (arith, o.2));
  usable = λ g j k e.
      let u = s.usable g j k e in
      (λ i m. elim m [ inl q ↦ newer w h k i n (s.owned g j k e).2 q | inr m' ↦ u.0 i m' ], u.1);
  flying = λ k m.
      let t = s.flying k m in
      (omega (arith, t.0), λ i c. elim c [ inl q ↦ newer w h k i n t.0 q | inr c' ↦ t.1 i c' ]);
  old = λ k m. elim m [
    | inl q ↦ (let z : k.serial ≡ w.next = ap (λ (y : Handle). y.serial) q ∙ n in omega (arith, z))
    | inr m' ↦ omega (arith, s.old k m')
  ];
}

pub same-IsSafe : (w : World) → IsSafe w → IsSafe (record w { next = suc w.next })
same-IsSafe w s = record {
  maps = s.maps;
  owned = λ g j k e. let o = s.owned g j k e in (o.0, o.1, omega (arith, o.2));
  usable = s.usable;
  flying = λ k m. let t = s.flying k m in (omega (arith, t.0), t.1);
  old = λ k m. omega (arith, s.old k m);
}
