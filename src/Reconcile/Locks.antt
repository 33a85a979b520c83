-- ===== src/Reconcile/Locks.antt =====
-- A volume that a checkout has locked, through reconciles of the pools and of the other checkouts
-- (pkg/controller/reconciler).
use pvpool.Prelude.{◌≡◌, sym, subst, ◌∙◌, String, Bool, true, some}
use pvpool.Prelude.Members.{some-eq}
use pvpool.Exec.{ok}
use pvpool.Exec.Rules.{Gives, Gives-imp}
use pvpool.Api.Core.{Key, Pvc, Pv}
use pvpool.Api.Resources.{Checkout}
use pvpool.Api.State.{CheckoutState}
use pvpool.Kube.{Kube}
use pvpool.Kube.Laws.{SortLaws}
use pvpool.Kube.Frame.{Frame, ReadLaws, ClaimLaws, PoolLaws, CheckoutLaws, VolumeLaws, KeyLaws}
use pvpool.Kube.Store.{Store, StoreLaws}
use pvpool.Kube.Lock.{Uids, lock_frame, OtherVolume, LockLaws}
use pvpool.Kube.Disturbed.{
  disturbed, same_frame, same_store, same_uids, disturbed-ReadLaws, disturbed-ClaimLaws,
  disturbed-PoolLaws, disturbed-CheckoutLaws, disturbed-KeyLaws, disturbed-VolumeLaws,
  disturbed-LockLaws,
}
use pvpool.CheckoutState.Pairs.{Pair, claim_of, volume_of, new_checkout_state}
use pvpool.CheckoutState.Load.{is_controller, refers_to, load}
use pvpool.CheckoutState.Persist.{persist_pair}
use pvpool.CheckoutState.Stored.{IsStored, persist_pair-IsStored}
use pvpool.CheckoutState.OwnedPersist.{VolumesMine}
use pvpool.CheckoutState.TakenPick.{load-Away}
use pvpool.Reconcile.OwnedCheckout.{ChoiceLaws}
use pvpool.Reconcile.Interleaving.{Reachable, steps-Safe}

module _ (k : Kube) (st : Store k) (ids : Uids k) (owner : String) (c : Pvc) (v : Pv) where
  abbrev lf : Frame k
  lf = lock_frame k st ids owner c v

  abbrev Other : String → Type 0
  Other = OtherVolume k st ids owner c v

  module _ (lock : LockLaws k st ids owner c v) (sort : SortLaws k) (reads : ReadLaws k lf)
      (claims : ClaimLaws k lf) (checkouts : CheckoutLaws k lf)
      (controls : is_controller owner (k.controller_of c.metadata) ≡ true)
      (refers : refers_to c.metadata.uid v.spec.claim_ref ≡ true) where
    -- What another checkout's Load finds.
    fresh_load-VolumesMine :
        (b : Checkout) (w : k.World)
        → lf.Safe w
        → ¬ (b.metadata.uid ≡ owner)
        → Gives (λ _ t. VolumesMine Other t.1) (λ _. Unit {0}) (load k (w, new_checkout_state k b))
    unfolding new_checkout_state
    fresh_load-VolumesMine b w safe apart =
        let start : k.World × CheckoutState = (w, new_checkout_state k b) in
        Gives-imp _ (λ _ t. VolumesMine Other t.1) (λ _. Unit {0}) (λ _. Unit {0}) (load k start)
          (λ _ _ h. h.2) (λ _ _. tt)
          (load-Away k st ids owner c v lock sort reads claims checkouts controls refers start
            (safe, apart, (λ u e. absurd (cc), λ u e. absurd (cc))))

    lock_choice : ChoiceLaws k lf Other
    lock_choice = record {
      load-VolumesMine = fresh_load-VolumesMine;
      new_volume-Own = lock.new_volume-Other;
    }

module _ (k : Kube) (st : Store k) (ids : Uids k) (owner : String) (c : Pvc) (v : Pv)
    (lock : LockLaws k st ids owner c v) (sort : SortLaws k)
    (reads : ReadLaws k (lock_frame k st ids owner c v))
    (claims : ClaimLaws k (lock_frame k st ids owner c v))
    (pools : PoolLaws k (lock_frame k st ids owner c v))
    (checkouts : CheckoutLaws k (lock_frame k st ids owner c v))
    (volumes : VolumeLaws k (lock_frame k st ids owner c v) (OtherVolume k st ids owner c v))
    (Others : k.World → k.World → Type 0) (IsReconciled : Key → Type 0)
    (keys : KeyLaws k (lock_frame k st ids owner c v) IsReconciled) (env : k.World → k.World) where
  abbrev Holds : k.World → Type 0
  Holds = (lock_frame k st ids owner c v).Safe

  module _ (env-Safe : (w : k.World) → Holds w → Holds (env w))
      (others-Safe : (w w' : k.World) → Others w w' → Holds w → Holds w') where
    abbrev dk : Kube
    dk = disturbed k env

    abbrev df : Frame dk
    df = same_frame k env (lock_frame k st ids owner c v)

    d_lock : LockLaws dk (same_store k env st) (same_uids k env ids) owner c v
    d_lock = disturbed-LockLaws k env st ids owner c v env-Safe lock

    d_sort : SortLaws dk
    d_sort = record { sort-perm = sort.sort-perm; sort-IsSorted = sort.sort-IsSorted }

    d_reads : ReadLaws dk df
    d_reads = disturbed-ReadLaws k env (lock_frame k st ids owner c v) env-Safe reads

    d_claims : ClaimLaws dk df
    d_claims = disturbed-ClaimLaws k env (lock_frame k st ids owner c v) env-Safe claims

    d_checkouts : CheckoutLaws dk df
    d_checkouts = disturbed-CheckoutLaws k env (lock_frame k st ids owner c v) env-Safe checkouts

    -- A claim that a checkout controls, and a volume that refers to it, stay on the server as they
    -- are through any sequence of reconciles of pools and of other checkouts, while others, before
    -- each call of a reconcile and between the reconciles, leave the two alone. This is so where the
    -- server keeps the uids of its objects distinct, and where a name that is made for a new volume
    -- is not the volume's.
    pub reachable-Locked :
        is_controller owner (k.controller_of c.metadata) ≡ true
        → refers_to c.metadata.uid v.spec.claim_ref ≡ true
        → {w w' : k.World} → Reachable dk Others IsReconciled w w'
        → Holds w
        → Holds w'
    reachable-Locked controls refers =
        steps-Safe dk Others IsReconciled df d_reads d_claims
          (disturbed-PoolLaws k env (lock_frame k st ids owner c v) env-Safe pools) d_checkouts
          (disturbed-KeyLaws k env (lock_frame k st ids owner c v) env-Safe IsReconciled keys)
          others-Safe (OtherVolume k st ids owner c v)
          (disturbed-VolumeLaws k env (lock_frame k st ids owner c v) env-Safe
            (OtherVolume k st ids owner c v) volumes)
          (lock_choice dk (same_store k env st) (same_uids k env ids) owner c v d_lock d_sort
            d_reads d_claims d_checkouts controls refers)

    -- Once a round of a checkout's Persist has succeeded, whatever reconciles of pools and of
    -- other checkouts follow, and whatever others do between their calls that leaves the claim and
    -- the volume of the round alone, the two are on the server as the round left them, and no other
    -- checkout's Load that succeeds comes out with a volume of that name. This is so where the volume
    -- is the one that the claim names, where the server gives out what was persisted and keeps the
    -- uids of its objects distinct, and where a name that is made for a new volume is not this one.
    pub persist_pair-exclusive :
        StoreLaws k st
        → (p : Pair) (u : Pv) (s s' : k.World × CheckoutState) → s.1.checkout.metadata.uid ≡ owner
        → volume_of p s.1 ≡ some u
        → (claim_of p s.1).spec.volume_name ≡ u.name
        → persist_pair k p s ≡ (ok tt, s')
        → claim_of p s'.1 ≡ c
        → volume_of p s'.1 ≡ some v
        → ids.Distinct s'.0
        → {w : k.World} → Reachable dk Others IsReconciled s'.0 w
        → (b : Checkout) → ¬ (b.metadata.uid ≡ owner)
        → (found : Bool) (t : k.World × CheckoutState)
        → load dk (w, new_checkout_state dk b) ≡ (ok found, t)
        → Holds w × VolumesMine (OtherVolume k st ids owner c v) t.1
    persist_pair-exclusive laws p u s s' is chosen named run is_c is_v distinct {w} r b apart found
          t run' =
        let stored : IsStored k st p owner s' =
          subst (Gives (λ _. IsStored k st p owner) (λ _. Unit {0})) run
            (persist_pair-IsStored k st laws p owner u s is chosen named) in
        let same : stored.v ≡ v = some-eq (sym stored.is_volume ∙ is_v) in
        let controls : is_controller owner (k.controller_of c.metadata) ≡ true =
          subst (λ d. is_controller owner (k.controller_of d.metadata) ≡ true) is_c
            stored.controls in
        let refers : refers_to c.metadata.uid v.spec.claim_ref ≡ true =
          subst (λ d. refers_to d.metadata.uid v.spec.claim_ref ≡ true) is_c
            (subst (λ x. refers_to (claim_of p s'.1).metadata.uid x.spec.claim_ref ≡ true) same
              stored.refers) in
        let safe : Holds w = reachable-Locked controls refers r (
          distinct,
          subst (st.HasClaim s'.0) is_c stored.has_claim,
          subst (st.HasVolume s'.0) same stored.has_volume,
        ) in
        (
          safe,
          subst (Gives (λ _ x. VolumesMine (OtherVolume k st ids owner c v) x.1) (λ _. Unit {0}))
              run'
              (fresh_load-VolumesMine dk (same_store k env st) (same_uids k env ids) owner c v
                d_lock d_sort d_reads d_claims d_checkouts controls refers b w safe apart),
        )
