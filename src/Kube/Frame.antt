-- ===== src/Kube/Frame.antt =====
-- Which claims the controllers' calls may write: the documented behaviour of the third-party code
-- that says which claims of the API server a call leaves alone.
use pvpool.Prelude.{String, true, false, ◌≡◌, [], ◌∷◌, All}
use pvpool.Exec.{ok, Exec}
use pvpool.Exec.Rules.{Gives}
use pvpool.Api.Core.{Key, ObjectMeta, Pvc, Pv, Job}
use pvpool.Api.Resources.{Pool, Checkout, new_pool, new_checkout}
use pvpool.Api.State.{PoolReplica, PoolState}
use pvpool.Kube.{Kube, Propagation, Event, text}
use pvpool.PoolState.Load.{is_other}
use pvpool.CheckoutState.Load.{is_controller}

-- What is to stay true of the server, the keys of the claims that may be written without harm to
-- it, and the uids that pools and checkouts have.
pub record Frame (k : Kube) : Type 1 where
  pub Safe : k.World → Type 0
  pub Own : Key → Type 0
  pub IsPool : String → Type 0
  pub IsCheckout : String → Type 0

module _ (k : Kube) (f : Frame k) where
  -- A safe world, and a claim that may be written.
  abbrev pub Held : k.World × Pvc → Type 0
  Held s = f.Safe s.0 × f.Own s.1.key

  abbrev pub Owns : PoolReplica → Type 0
  Owns r = f.Own r.claim.key

  pub record OwnsAll (ps : PoolState) : Type 0 where
    pub is_pool : f.IsPool ps.pool.metadata.uid
    pub initializing : All Owns ps.initializing
    pub available : All Owns ps.available
    pub stale : All Owns ps.stale

  abbrev pub PoolHeld : k.World × PoolState → Type 0
  PoolHeld s = f.Safe s.0 × OwnsAll s.1

  -- Calls that read, or write other objects than claims.
  pub record ReadLaws : Type 0 where
    pub load_job-Safe : (s : k.World × Job) → f.Safe s.0 → f.Safe (k.load_job s).1.0
    pub delete_job-Safe :
        (p : Propagation) (s : k.World × Job) → f.Safe s.0 → f.Safe (k.delete_job p s).1.0
    pub set_dependency_of-Safe :
        (p : Pool) (s : k.World × Job) → f.Safe s.0 → f.Safe (k.set_dependency_of p s).1.0
    pub load_pv-Safe : (s : k.World × Pv) → f.Safe s.0 → f.Safe (k.load_pv s).1.0
    pub list_pvcs-Safe :
        (namespace : String) (selector : k.Selector) (w : k.World)
        → f.Safe w
        → f.Safe (k.list_pvcs namespace selector w).1
    pub new_rng-Safe : (w : k.World) → f.Safe w → f.Safe (k.new_rng w).1
    pub uint64_n-Safe : (r : k.Rng) (n : _) (w : k.World) → f.Safe w → f.Safe (k.uint64_n r n w).1
    pub record_event-Safe : (e : Event) (w : k.World) → f.Safe w → f.Safe (k.record_event e w)
    pub load_pool-Safe : (s : k.World × Pool) → f.Safe s.0 → f.Safe (k.load_pool s).1.0
    pub update_pool_status-Safe :
        (s : k.World × Pool) → f.Safe s.0 → f.Safe (k.update_pool_status s).1.0

  -- Calls on a claim: they keep its key, and one that writes harms nothing where the claim may be
  -- written.
  pub record ClaimLaws : Type 0 where
    pub new_pvc-key : (key : Key) → (k.new_pvc key).key ≡ key
    pub label_annotate_pvc-key : (m : ObjectMeta) (c : Pvc) → (k.label_annotate_pvc m c).key ≡ c.key
    pub load_pvc-Safe : (s : k.World × Pvc) → f.Safe s.0 → f.Safe (k.load_pvc s).1.0
    pub load_pvc-key : (s : k.World × Pvc) → (k.load_pvc s).1.1.key ≡ s.1.key
    pub pool_owns-Held : (p : Pool) (s : k.World × Pvc) → Held s → Held (k.pool_owns p s).1
    pub persist_pvc-Held : (s : k.World × Pvc) → Held s → Held (k.persist_pvc s).1
    pub delete_pvc-Held : (p : Propagation) (s : k.World × Pvc) → Held s → Held (k.delete_pvc p s).1
    pub persist_owned-Held :
        (s : k.World × (Pvc × Job))
        → Held (s.0, s.1.0)
        → let (_, t) = k.persist_owned s in Held (t.0, t.1.0)

  -- The claims that a pool may write: those that no other object controls, and those under the name
  -- of a new uuid. Finalize calls the function that it is given, and writes no claims itself.
  pub record PoolLaws : Type 0 where
    pub load_pool-IsPool :
        (key : Key) (w : k.World) (t : k.World × Pool)
        → f.Safe w
        → k.load_pool (w, new_pool key) ≡ (ok true, t)
        → f.IsPool t.1.metadata.uid
    pub pool_claim-Own :
        (uid : String) (s t : k.World × Pvc)
        → f.Safe s.0
        → f.IsPool uid
        → k.load_pvc s ≡ (ok true, t)
        → is_other uid (k.controller_of t.1.metadata) ≡ false
        → f.Own t.1.key
    pub new_id-Own :
        (w : k.World)
        → f.Safe w
        → Gives
            (λ id w'.
              f.Safe w'
              × ((namespace name : String)
                  → f.Own (record {
                    namespace = namespace;
                    name = k.meta_name_suffixed name (k.sprintf "-%s" (text id ∷ []));
                  })))
            f.Safe
            (k.new_id w)
    pub finalize-Held :
        (name : String) (g : Exec k.Error (k.World × PoolState) (Unit {0}))
        (s : k.World × PoolState)
        → ((t : k.World × PoolState) → PoolHeld t → PoolHeld (g t).1)
        → PoolHeld s
        → PoolHeld (k.finalize name g s).1

  -- The claims that a checkout may write: those that it controls, and those that are not there yet.
  pub record CheckoutLaws : Type 0 where
    pub load_checkout-Safe : (s : k.World × Checkout) → f.Safe s.0 → f.Safe (k.load_checkout s).1.0
    pub require_pool-Gives :
        (key : Key) (w : k.World)
        → f.Safe w
        → Gives
            (λ _ t. f.Safe t.0 × f.IsPool t.1.metadata.uid)
            (λ t. f.Safe t.0)
            (k.require_pool (w, new_pool key))
    pub checkout_claim-Own :
        (uid : String) (s t : k.World × Pvc)
        → f.Safe s.0
        → f.IsCheckout uid
        → k.load_pvc s ≡ (ok true, t)
        → is_controller uid (k.controller_of t.1.metadata) ≡ true
        → f.Own t.1.key
    pub absent_claim-Own :
        (s t : k.World × Pvc) → f.Safe s.0 → k.load_pvc s ≡ (ok false, t) → f.Own t.1.key
    pub checkout_owns-Held :
        (c : Checkout) (s : k.World × Pvc) → Held s → Held (k.checkout_owns c s).1
    pub update_checkout_status-Safe :
        (s : k.World × Checkout) → f.Safe s.0 → f.Safe (k.update_checkout_status s).1.0

  -- Calls that write a volume, under a name that may be written; they keep the name.
  pub record VolumeLaws (OwnVolume : String → Type 0) : Type 0 where
    pub persist_pv-Safe :
        (s : k.World × Pv) → OwnVolume s.1.name → f.Safe s.0 → f.Safe (k.persist_pv s).1.0
    pub persist_pv-name : (s : k.World × Pv) → (k.persist_pv s).1.1.name ≡ s.1.name
    pub delete_pv-Safe :
        (p : Propagation) (s : k.World × Pv)
        → OwnVolume s.1.name
        → f.Safe s.0
        → f.Safe (k.delete_pv p s).1.0
    pub delete_pv-name :
        (p : Propagation) (s : k.World × Pv) → (k.delete_pv p s).1.1.name ≡ s.1.name

  -- Which uid the checkouts have that are reconciled.
  pub record KeyLaws (IsReconciled : Key → Type 0) : Type 0 where
    pub load_checkout-IsCheckout :
        (key : Key) (w : k.World) (t : k.World × Checkout)
        → IsReconciled key
        → f.Safe w
        → k.load_checkout (w, new_checkout key) ≡ (ok true, t)
        → f.IsCheckout t.1.metadata.uid
