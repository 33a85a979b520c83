-- ===== src/PoolState/Taken.antt =====
-- Load of PoolState (pkg/controller/app/pool_state.go) while a checkout has locked a volume.
use pvpool.Prelude.{
  arith, none, ◌≡◌, refl, sym, ◌∙◌, String, Bool, true, false, eq_iff, Option, some, List, [], ◌∷◌,
  All, All-append, if◌then◌else◌, Bool-cases, inl, inr,
}
use pvpool.Exec.{Outcome, ok, err, panic, timeout, Exec, modify, pure, continue, ◌>>=◌, ◌>>◌}
use pvpool.Exec.Rules.{Gives, Gives-bind}
use pvpool.Api.Core.{Key, OwnerReference, Pvc, Pv}
use pvpool.Api.State.{PoolReplica, PoolState}
use pvpool.Kube.{Kube}
use pvpool.Kube.Store.{Store}
use pvpool.Kube.Frame.{ReadLaws, ClaimLaws}
use pvpool.Kube.Lock.{Uids, lock_frame, OtherVolume, LockLaws}
use pvpool.CheckoutState.OwnedPersist.{MineIf}
use pvpool.CheckoutState.Load.{is_controller, refers_to}
use pvpool.Replica
use pvpool.Replica.Taken.{WithClaim, load-WithClaim}
use pvpool.PoolState.Slots.{Slot, initializing, available, stale, call, slot_of, push}
use pvpool.PoolState.Load.{is_other, place, load_key, load_keys, load}

-- What a controller controls is another's for all others.
pub controller-eq :
    (a b : String) (o : Option OwnerReference)
    → is_controller a o ≡ true
    → is_controller b o ≡ true
    → a ≡ b
controller-eq a b none h g = absurd (cc)
controller-eq a b (some ref) h g = sym ((eq_iff ref.uid a).0 h) ∙ (eq_iff ref.uid b).0 g

pub not_other :
    (owner uid : String) (o : Option OwnerReference)
    → is_controller owner o ≡ true
    → is_other uid o ≡ false
    → uid ≡ owner
not_other owner uid none h own = absurd (cc)
not_other owner uid (some ref) h own = controller-eq uid owner (some ref) (ground arith) h

module _ (k : Kube) (st : Store k) (ids : Uids k) (owner : String) (c : Pvc) (v : Pv) where
  abbrev Hold : k.World → Type 0
  Hold = (lock_frame k st ids owner c v).Safe

  -- The volume is not the replica's.
  abbrev pub Without : PoolReplica → Type 0
  Without r = MineIf (OtherVolume k st ids owner c v) r.volume

  abbrev pub NoneHas : k.World × PoolState → Type 0
  NoneHas s = Hold s.0 × All Without s.1.available × ¬ (s.1.pool.metadata.uid ≡ owner)

  push-Without :
      (slot : Slot) (r : PoolReplica) (ps : PoolState)
      → Without r
      → All Without ps.available
      → All Without (push slot r ps).available
  push-Without initializing r ps one all = all
  push-Without available r ps one all = All-append Without ps.available (r ∷ []) all (one, tt)
  push-Without stale r ps one all = all

  push-pool : (slot : Slot) (r : PoolReplica) (ps : PoolState) → (push slot r ps).pool ≡ ps.pool
  push-pool initializing r ps = refl
  push-pool available r ps = refl
  push-pool stale r ps = refl

  module _ (lock : LockLaws k st ids owner c v) (reads : ReadLaws k (lock_frame k st ids owner c v))
      (claims : ClaimLaws k (lock_frame k st ids owner c v))
      (controls : is_controller owner (k.controller_of c.metadata) ≡ true)
      (refers : refers_to c.metadata.uid v.spec.claim_ref ≡ true) where
    abbrev Lost : k.World × PoolState → Type 0
    Lost _ = Unit {0}

    -- A claim that the checkout controls is left out.
    place-NoneHas :
        (w : k.World) (r : PoolReplica) (ps : PoolState)
        → WithClaim k st ids owner c v r
        → NoneHas (w, ps)
        → NoneHas (w, place k r ps)
    unfolding place
    place-NoneHas w r ps with_claim h =
        elim (Bool-cases (is_other ps.pool.metadata.uid (k.controller_of r.claim.metadata))) [
          | inl other ↦ rw other h
          | inr own ↦ rw own (
            h.0,
            push-Without (slot_of k r) r ps
                (λ u e name. h.2 (
                  not_other owner ps.pool.metadata.uid (k.controller_of r.claim.metadata)
                    (rw (with_claim u e name) controls) own))
                h.1,
            rw (push-pool (slot_of k r) r ps) h.2,
          )
        ]

    load_key-NoneHas :
        (key : Key) (s : k.World × PoolState)
        → NoneHas s
        → Gives (λ _. NoneHas) Lost (load_key k key s)
    unfolding load_key
    load_key-NoneHas key s h =
        go (Replica.load k (s.0, Replica.new_replica k key))
          (load-WithClaim k st ids owner c v lock reads claims refers key s.0 h.0)
      where
        go :
            (d : Outcome k.Error Bool × (k.World × PoolReplica))
            → Gives (λ _ t. Hold t.0 × WithClaim k st ids owner c v t.1) (λ _. Unit {0}) d
            → Gives
                (λ _. NoneHas)
                Lost
                (continue {S = k.World × PoolState} d.0
                  (λ found. if found then modify (λ t. (t.0, place k d.1.1 t.1)) else pure tt)
                  (d.1.0, s.1))
        go (ok true, t) g = place-NoneHas t.0 t.1 s.1 g.1 (g.0, h.1, h.2)
        go (ok false, t) g = (g.0, h.1, h.2)
        go (err e, t) g = tt
        go (panic, t) g = tt
        go (timeout, t) g = tt

    load_keys-NoneHas :
        (keys : List Key) (s : k.World × PoolState)
        → NoneHas s
        → Gives (λ _. NoneHas) Lost (load_keys k keys s)
    unfolding load_keys
    load_keys-NoneHas [] s h = h
    load_keys-NoneHas (key ∷ keys) s h =
        Gives-bind (λ _. NoneHas) (λ _. NoneHas) Lost (load_key k key) (λ _. load_keys k keys) s
          (load_key-NoneHas key s h) λ _ t ht. load_keys-NoneHas keys t ht

    -- No available replica has the volume.
    pub load-NoneHas :
        (s : k.World × PoolState)
        → Hold s.0
        → ¬ (s.1.pool.metadata.uid ≡ owner)
        → Gives (λ _. NoneHas) Lost (load k s)
    unfolding load
    load-NoneHas s still apart = selected (k.as_selector s.1.pool.spec.selector)
      where
        rest : k.Selector → Exec k.Error (k.World × PoolState) Bool
        rest selector = call k (k.list_pvcs s.1.pool.key.namespace selector) >>= λ keys.
            modify (λ u. (u.0, record u.1 { initializing = []; available = []; stale = [] }))
            >> (load_keys k keys >> pure true)

        selected : (d : Outcome k.Error k.Selector) → Gives (λ _. NoneHas) Lost (continue d rest s)
        selected (ok selector) =
            listed (k.list_pvcs s.1.pool.key.namespace selector s.0)
              (reads.list_pvcs-Safe s.1.pool.key.namespace selector s.0 still)
          where
            listed :
                (d : Outcome k.Error (List Key) × k.World)
                → Hold d.1
                → Gives
                    (λ _. NoneHas)
                    Lost
                    (continue {S = k.World × PoolState} d.0
                      (λ keys.
                        modify
                          (λ u. (u.0, record u.1 { initializing = []; available = []; stale = [] }))
                        >> (load_keys k keys >> pure true))
                      (d.1, s.1))
            listed (ok keys, w) hold =
                Gives-bind (λ _. NoneHas) (λ _. NoneHas) Lost (load_keys k keys) (λ _. pure true)
                  (w, record s.1 { initializing = []; available = []; stale = [] })
                  (load_keys-NoneHas keys _ (hold, tt, apart)) λ _ _ h. h
            listed (err e, w) hold = tt
            listed (panic, w) hold = tt
            listed (timeout, w) hold = tt
        selected (err e) = tt
        selected panic = tt
        selected timeout = tt
