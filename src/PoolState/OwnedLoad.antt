-- ===== src/PoolState/OwnedLoad.antt =====
-- Which claims Load of PoolState (pkg/controller/app/pool_state.go) lets in.
use pvpool.Prelude.{
  refl, subst, Bool, true, false, List, [], ◌∷◌, if◌then◌else◌, Bool-cases, inl, inr,
}
use pvpool.Exec.{Outcome, ok, err, panic, timeout, modify, pure, continue}
use pvpool.Exec.Rules.{Keeps-bind, Gives}
use pvpool.Api.Core.{Key}
use pvpool.Api.State.{PoolReplica, PoolState}
use pvpool.Kube.{Kube}
use pvpool.Kube.Frame.{Frame, OwnsAll, PoolHeld, ReadLaws, ClaimLaws, PoolLaws}
use pvpool.Replica
use pvpool.Replica.Found.{FoundAt, SafeAt, IsServed, load-FoundAt}
use pvpool.PoolState.Slots.{call, slot_of}
use pvpool.PoolState.Load.{is_other, place, load_key, load_keys, load}
use pvpool.PoolState.Owned.{OwnsAll-push}

module _ (k : Kube) (f : Frame k) (reads : ReadLaws k f) (claims : ClaimLaws k f)
    (pools : PoolLaws k f) where
  -- A claim that no other object controls may be written.
  place-OwnsAll :
      (r : PoolReplica) (ps : PoolState)
      → IsServed k f reads claims r.claim
      → OwnsAll k f ps
      → OwnsAll k f (place k r ps)
  unfolding place
  place-OwnsAll r ps served h =
      elim (Bool-cases (is_other ps.pool.metadata.uid (k.controller_of r.claim.metadata))) [
        | inl other ↦ rw other h
        | inr own ↦ rw own (
            OwnsAll-push k f (slot_of k r) r ps
              (subst (λ c. f.Own c.key) served.same_claim
                (pools.pool_claim-Own ps.pool.metadata.uid served.before served.after served.is_safe
                  h.is_pool served.is_loaded (rw served.same_claim own)))
              h)
      ]

  load_key-PoolHeld :
      (key : Key) (s : k.World × PoolState) → PoolHeld k f s → PoolHeld k f (load_key k key s).1
  unfolding load_key Replica.new_replica
  load_key-PoolHeld key s h = go (Replica.load k (s.0, Replica.new_replica k key)) (
      load-FoundAt k f reads claims key (s.0, Replica.new_replica k key)
        (h.0, claims.new_pvc-key key))
    where
      go :
          (d : Outcome k.Error Bool × (k.World × PoolReplica))
          → Gives (FoundAt k f reads claims key) (SafeAt k f reads claims key) d
          → PoolHeld k f
              (continue {S = k.World × PoolState} d.0
                (λ found. if found then modify (λ t. (t.0, place k d.1.1 t.1)) else pure tt)
                (d.1.0, s.1)).1
      go (ok true, t) g = (g.0.0, place-OwnsAll t.1 s.1 (g.1 refl) h.1)
      go (ok false, t) g = (g.0.0, h.1)
      go (err e, t) g = (g.0, h.1)
      go (panic, t) g = (g.0, h.1)
      go (timeout, t) g = (g.0, h.1)

  load_keys-PoolHeld :
      (keys : List Key) (s : k.World × PoolState)
      → PoolHeld k f s
      → PoolHeld k f (load_keys k keys s).1
  unfolding load_keys
  load_keys-PoolHeld [] s h = h
  load_keys-PoolHeld (key ∷ keys) s h =
      Keeps-bind (PoolHeld k f) (load_key k key) (λ _. load_keys k keys) s
        (load_key-PoolHeld key s h) λ _. load_keys-PoolHeld keys

  pub load-PoolHeld : (s : k.World × PoolState) → PoolHeld k f s → PoolHeld k f (load k s).1
  unfolding load
  load-PoolHeld s h =
      Keeps-bind (PoolHeld k f) (λ t. (k.as_selector s.1.pool.spec.selector, t)) _ s h
        λ selector t ht.
          Keeps-bind (PoolHeld k f) (call k (k.list_pvcs s.1.pool.key.namespace selector)) _ t
            (reads.list_pvcs-Safe s.1.pool.key.namespace selector t.0 ht.0, ht.1)
            λ keys u hu.
              Keeps-bind (PoolHeld k f) (load_keys k keys) (λ _. pure true)
                (u.0, record u.1 { initializing = []; available = []; stale = [] })
                (load_keys-PoolHeld keys _ (
                  hu.0,
                  record { is_pool = hu.1.is_pool; initializing = tt; available = tt; stale = tt },
                ))
                λ _ _ hv. hv
