-- ===== src/Reconcile/Interleaving.antt =====
-- Reconciles of pools and checkouts (pkg/controller/reconciler), one after the other in any order,
-- with changes of others between them.
use pvpool.Prelude.{String}
use pvpool.Exec.Rules.{Gives-all}
use pvpool.Api.Core.{Key}
use pvpool.Kube.{Kube}
use pvpool.Kube.Frame.{Frame, ReadLaws, ClaimLaws, PoolLaws, CheckoutLaws, VolumeLaws, KeyLaws}
use pvpool.Kube.Disturbed.{
  disturbed, same_frame, disturbed-ReadLaws, disturbed-ClaimLaws, disturbed-PoolLaws,
  disturbed-CheckoutLaws, disturbed-KeyLaws, disturbed-VolumeLaws,
}
use pvpool.CheckoutState.Pairs.{new_checkout_state}
use pvpool.CheckoutState.Load
use pvpool.Reconcile.Pools
use pvpool.Reconcile.Checkouts
use pvpool.Reconcile.OwnedPool
use pvpool.Reconcile.OwnedCheckout

abbrev pub AnyVolume : String → Type 0
AnyVolume _ = Unit {0}

abbrev pub AnyKey : Key → Type 0
AnyKey _ = Unit {0}

any_choice : (k : Kube) (f : Frame k) → OwnedCheckout.ChoiceLaws k f AnyVolume
any_choice k f = record {
  load-VolumesMine = λ c w _ _.
      Gives-all _ _ (Load.load k (w, new_checkout_state k c)) (λ _ _. (λ _ _. tt, λ _ _. tt))
        λ _. tt;
  new_volume-Own = λ _ _. tt;
}

module _ (k : Kube) (Others : k.World → k.World → Type 0) (IsReconciled : Key → Type 0) where
  -- One reconcile of a pool by its key, or of a checkout by one of some keys, or something that
  -- others do to the server.
  pub data Step : k.World → k.World → Type 0 where
    pool : (key : Key) (w : k.World) → Step w (Pools.reconcile k key w).1
    checkout : (key : Key) (w : k.World) → IsReconciled key → Step w (Checkouts.reconcile k key w).1
    others : {w w' : k.World} → Others w w' → Step w w'

  pub data Reachable (w : k.World) : k.World → Type 0 where
    start : Reachable w w
    next : {v v' : k.World} → Reachable w v → Step v v' → Reachable w v'

module _ (k : Kube) (Others : k.World → k.World → Type 0) (IsReconciled : Key → Type 0)
    (f : Frame k) (reads : ReadLaws k f) (claims : ClaimLaws k f) (pools : PoolLaws k f)
    (checkouts : CheckoutLaws k f) (keys : KeyLaws k f IsReconciled)
    (others-Safe : (w w' : k.World) → Others w w' → f.Safe w → f.Safe w') where
  module _ (OwnVolume : String → Type 0) (volumes : VolumeLaws k f OwnVolume)
      (choice : OwnedCheckout.ChoiceLaws k f OwnVolume) where
    step-Safe : {w w' : k.World} → Step k Others IsReconciled w w' → f.Safe w → f.Safe w'
    step-Safe (pool key w) h = OwnedPool.reconcile-Safe k f reads claims pools key w h
    step-Safe (checkout key w is) h =
        OwnedCheckout.reconcile-Safe k f reads claims pools checkouts OwnVolume volumes choice
          IsReconciled keys key w is h
    step-Safe (others {w} {w'} o) h = others-Safe w w' o h

    pub steps-Safe : {w w' : k.World} → Reachable k Others IsReconciled w w' → f.Safe w → f.Safe w'
    steps-Safe start h = h
    steps-Safe (next r s) h = step-Safe s (steps-Safe r h)

module _ (k : Kube) (Others : k.World → k.World → Type 0) (IsReconciled : Key → Type 0)
    (f : Frame k) (reads : ReadLaws k f) (claims : ClaimLaws k f) (pools : PoolLaws k f)
    (checkouts : CheckoutLaws k f) (keys : KeyLaws k f IsReconciled)
    (volumes : VolumeLaws k f AnyVolume) where
  -- A property of the server that others keep, and that the controllers' calls keep while they
  -- write no claims but their own, stays true through any sequence of reconciles of pools and
  -- checkouts, whether they succeed or not, and whatever others do before each call that a
  -- reconcile makes and between the reconciles. A claim is the controllers' own if a pool lists it
  -- and no other object controls it, if the checkout that names it controls it, if it is not there
  -- yet, or if it has the name of a new uuid.
  pub reachable-Safe :
      (env : k.World → k.World)
      → ((w : k.World) → f.Safe w → f.Safe (env w))
      → ((w w' : k.World) → Others w w' → f.Safe w → f.Safe w')
      → {w w' : k.World} → Reachable (disturbed k env) Others IsReconciled w w'
      → f.Safe w
      → f.Safe w'
  reachable-Safe env env-Safe others-Safe r h =
      let g = same_frame k env f in
      steps-Safe (disturbed k env) Others IsReconciled g (disturbed-ReadLaws k env f env-Safe reads)
        (disturbed-ClaimLaws k env f env-Safe claims) (disturbed-PoolLaws k env f env-Safe pools)
        (disturbed-CheckoutLaws k env f env-Safe checkouts)
        (disturbed-KeyLaws k env f env-Safe IsReconciled keys) others-Safe AnyVolume
        (disturbed-VolumeLaws k env f env-Safe AnyVolume volumes) (any_choice (disturbed k env) g) r
        h
