-- ===== src/Registry/Races/Always.antt =====
-- The invariant in every world that can be reached.
use verix_dbm.Base.{ℕ, suc, ◌≡◌, refl, sym, ◌∙◌, subst, ◌≢◌, inl, inr, none, some, [], Bytes}
use verix_dbm.GoMap.{nat_key, lookup}
use verix_dbm.Crypto.{Library, Box}
use verix_dbm.Store.Paths.{Files}
use verix_dbm.Registry.{Family, Handle, find, Drivers, new_registry}
use verix_dbm.Registry.Reuse.{dial-dialled, dial-failed, find-pool_of}
use verix_dbm.Registry.Races.{
  World, Lacks, IsSafe, Step, finds, opens, fails, enters, tidies, forgets,
}
use verix_dbm.Registry.Races.Opening.{
  find-IsSafe, open-IsSafe, fail-IsSafe, same-IsSafe, enter-IsSafe,
}
use verix_dbm.Registry.Races.Closing.{forget-IsSafe, janitor-IsSafe}

abbrev pub new_world : World
new_world = record { registry = new_registry; flights = []; next = 0 }

none-some : (h : Handle) → none ≢ some h
none-some h e = cc

new_world-IsSafe : IsSafe new_world
unfolding new_registry lookup
new_world-IsSafe = record {
  maps = λ f. tt;
  owned = λ f id h e. absurd (none-some h e);
  usable = λ f id h e. ((λ g m. absurd m), (λ g m. absurd m));
  flying = λ h m. absurd m;
  old = λ h m. absurd m;
}

module _ (lib : Library) (files : Files) (drivers : Drivers) (box : Box) (dir : Bytes) where
  Step-IsSafe : (w w' : World) → Step lib files drivers box dir w w' → IsSafe w → IsSafe w'
  Step-IsSafe w _ (finds f id now) s = find-IsSafe w f id now s
  Step-IsSafe w _ (opens f c h k) s =
      open-IsSafe w h (dial-dialled lib files drivers box dir w.registry f c w.next h k).2 s
  Step-IsSafe w _ (fails f c r e k) s =
      elim (dial-failed lib files drivers box dir w.registry r f c w.next e k) [
        | inl q ↦
            subst (λ x. IsSafe (record w { registry = x; next = suc w.next })) q (same-IsSafe w s)
        | inr q ↦
            subst (λ x. IsSafe (record w { registry = x; next = suc w.next })) q
              (fail-IsSafe w (record { family = f; conn_id = c.id; serial = w.next }) refl s)
      ]
  Step-IsSafe w _ (enters h now m) s = enter-IsSafe w h now m s
  Step-IsSafe w _ (tidies now) s = janitor-IsSafe w now s
  Step-IsSafe w _ (forgets id) s = forget-IsSafe w id s

  -- The worlds that can be reached from the start of the process.
  pub data Reachable : World → Type 0 where
    start : Reachable new_world
    then_step : (w w' : World) → Reachable w → Step lib files drivers box dir w w' → Reachable w'

  Reachable-IsSafe : (w : World) → Reachable w → IsSafe w
  Reachable-IsSafe _ start = new_world-IsSafe
  Reachable-IsSafe _ (then_step w w' r t) = Step-IsSafe w w' t (Reachable-IsSafe w r)

  -- However openings that succeed or fail, rounds of the janitor and deletions interleave, a pool
  -- that is found for a connection has been opened for it and its family, and has not been closed.
  pub find-open :
      (w : World) (f : Family) (id now : ℕ) (h : Handle)
      → Reachable w
      → (find w.registry f id now).1 ≡ some h
      → (h.family ≡ f) × (h.conn_id ≡ id) × Lacks w.registry.closed h
  find-open w f id now h r e =
      let s = Reachable-IsSafe w r in
      let p = sym (find-pool_of w.registry f id now) ∙ e in
      let o = s.owned f id h p in (o.0, o.1, (s.usable f id h p).0)
