-- ===== src/Tests/Exclusion.antt =====
-- A volume that one checkout has locked, and another checkout that is loaded later.
use pvpool.Prelude.{◌≡◌, refl, true, none, some, [], ◌∷◌, eq_iff}
use pvpool.Exec.{ok}
use pvpool.Api.Core.{empty_meta, Pvc, Pv}
use pvpool.Api.State.{CheckoutState}
use pvpool.Kube.{Kube}
use pvpool.Kube.Disturbed.{disturbed}
use pvpool.Kube.Lock.{OtherVolume}
use pvpool.PoolState.Load
use pvpool.PoolState.Load.{is_other}
use pvpool.Replica
use pvpool.Replica.Phase.{is_stale, is_available}
use pvpool.CheckoutState.Pairs.{locked, new_checkout_state, or_else}
use pvpool.CheckoutState.Load.{load, load_pair, load_from_pool, pool_key, pick}
use pvpool.CheckoutState.Persist.{persist_pair}
use pvpool.CheckoutState.OwnedPersist.{VolumesMine}
use pvpool.Reconcile.Pools
use pvpool.Reconcile.Checkouts
use pvpool.Reconcile.Interleaving.{start, next, pool, checkout, others, AnyKey}
use pvpool.Reconcile.Locks.{reachable-Locked, persist_pair-exclusive}
use pvpool.Tests.Cluster.{Cluster, blank_pvc, blank_pv}
use pvpool.Tests.Pools.{key_of, cluster, claim_a, volume_a, reference_to_a}
use pvpool.Tests.Checkouts.{request}
use pvpool.Tests.Locks.{
  strict, strict_store, strict-StoreLaws, locked_claim, taken_claim, taken_volume, uids,
  locked_frame, strict-ReadLaws, strict-ClaimLaws, strict-VolumeLaws, strict-SortLaws,
}
use pvpool.Tests.LockLaws.{
  not_owner, strict-PoolLaws, strict-CheckoutLaws, strict-KeyLaws, strict-LockLaws,
}

-- A second claim that is available, and its volume.
abbrev claim_z : Pvc
claim_z = record claim_a {
  key = key_of "z";
  metadata = record (claim_a.metadata) { uid = "uid-z" };
  spec = record (claim_a.spec) { volume_name = "vol-z" };
}

abbrev volume_z : Pv
volume_z = record (blank_pv "vol-z") {
  spec = record ((blank_pv "vol-z").spec) {
    claim_ref = some (record reference_to_a { name = "z"; uid = "uid-z" });
  };
}

abbrev stocked : Cluster
stocked = record cluster { claims = claim_a ∷ claim_z ∷ []; volumes = volume_a ∷ volume_z ∷ [] }

-- The first checkout, which is about to lock the volume.
abbrev first : CheckoutState
first = record {
  checkout = record request { metadata = record empty_meta { uid = "owner-uid" } };
  claim = blank_pvc (key_of "data");
  volume = none;
  locked_claim = locked_claim;
  locked_volume = some volume_a;
  conds = λ _. none;
}

abbrev after : Cluster × CheckoutState
after = (persist_pair strict locked (stocked, first)).1

locks : persist_pair strict locked (stocked, first) ≡ (ok tt, after)
unfolding persist_pair
locks = refl

kept_apart : uids.Distinct after.0
unfolding persist_pair
kept_apart = (
  (
    λ _. refl,
    (
      λ e. absurd (cc ((eq_iff "uid-a" "locked-uid").1 e)),
      (λ e. absurd (cc ((eq_iff "uid-z" "locked-uid").1 e)), tt),
    ),
  ),
  (not_owner, tt),
)

abbrev Forget : Cluster → Cluster → Type 0
Forget w w' = w' ≡ record w { events = [] }

-- Before each call the server drops its events.
abbrev forget : Cluster → Cluster
forget w = record w { events = [] }

-- Events that have expired do not matter.
forgotten : (w w' : Cluster) → Forget w w' → locked_frame.Safe w → locked_frame.Safe w'
forgotten w w' e h = rw e h

abbrev busy : Kube
busy = disturbed strict forget

abbrev second : Cluster × CheckoutState
second = (load busy (forget after.0, new_checkout_state busy request)).1

loads : load busy (forget after.0, new_checkout_state busy request) ≡ (ok true, second)
unfolding load load_pair load_from_pool pool_key pick Load.load Load.load_keys Load.load_key
    Load.place Replica.load Replica.new_replica Replica.created_before is_stale is_available
    new_checkout_state or_else persist_pair
loads = refl

takes_another : second.1.locked_volume ≡ some volume_z
unfolding load load_pair load_from_pool pool_key pick Load.load Load.load_keys Load.load_key
    Load.place Replica.load Replica.new_replica Replica.created_before is_stale is_available
    new_checkout_state or_else persist_pair
takes_another = refl

persist_pair-exclusive_example :
    locked_frame.Safe (forget after.0)
    × VolumesMine
        (OtherVolume strict strict_store uids "owner-uid" taken_claim taken_volume)
        second.1
persist_pair-exclusive_example =
    persist_pair-exclusive strict strict_store uids "owner-uid" taken_claim taken_volume
      strict-LockLaws strict-SortLaws strict-ReadLaws strict-ClaimLaws strict-PoolLaws
      strict-CheckoutLaws strict-VolumeLaws Forget AnyKey strict-KeyLaws forget (λ w h. h) forgotten
      strict-StoreLaws locked volume_a (stocked, first) after refl refl refl locks
      (unfold persist_pair in refl) (unfold persist_pair in refl) kept_apart
      (next start (others refl)) request not_owner true second loads

abbrev two_reconciles : Cluster → Cluster
two_reconciles w =
    (Checkouts.reconcile busy (key_of "checkout") (Pools.reconcile busy (key_of "pool") w).1).1

reachable-Locked_example : locked_frame.Safe (two_reconciles after.0)
reachable-Locked_example =
    reachable-Locked strict strict_store uids "owner-uid" taken_claim taken_volume strict-LockLaws
      strict-SortLaws strict-ReadLaws strict-ClaimLaws strict-PoolLaws strict-CheckoutLaws
      strict-VolumeLaws Forget AnyKey strict-KeyLaws forget (λ w h. h) forgotten refl refl
      (next (next start (pool (key_of "pool") after.0)) (checkout (key_of "checkout") _ tt))
      (kept_apart, unfold persist_pair in refl, unfold persist_pair in refl)
