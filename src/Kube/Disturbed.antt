-- ===== src/Kube/Disturbed.antt =====
-- An API server that others change before each call, and the laws that survive it.
use pvpool.Prelude.{String}
use pvpool.Exec.{Exec}
use pvpool.Api.State.{PoolState}
use pvpool.Api.Core.{Pvc, Pv}
use pvpool.Kube.{Kube}
use pvpool.Kube.Store.{Store}
use pvpool.Kube.Lock.{Uids, lock_frame, LockLaws}
use pvpool.Kube.Frame.{
  Frame, ReadLaws, ClaimLaws, PoolLaws, CheckoutLaws, VolumeLaws, KeyLaws, OwnsAll,
}

module _ (k : Kube) (env : k.World → k.World) where
  abbrev late : {A B : Type 0} → Exec k.Error (k.World × B) A → Exec k.Error (k.World × B) A
  late m (w, b) = m (env w, b)

  -- What others do may depend on all of the world, a plan of theirs included.
  abbrev pub disturbed : Kube
  disturbed = record k {
    load_pvc = late k.load_pvc;
    persist_pvc = late k.persist_pvc;
    delete_pvc = λ p. late (k.delete_pvc p);
    load_pv = late k.load_pv;
    persist_pv = late k.persist_pv;
    delete_pv = λ p. late (k.delete_pv p);
    load_job = late k.load_job;
    delete_job = λ p. late (k.delete_job p);
    persist_owned = late k.persist_owned;
    load_pool = late k.load_pool;
    require_pool = late k.require_pool;
    pool_owns = λ p. late (k.pool_owns p);
    update_pool_status = late k.update_pool_status;
    load_checkout = late k.load_checkout;
    checkout_owns = λ c. late (k.checkout_owns c);
    update_checkout_status = late k.update_checkout_status;
    finalize = λ name f. late (k.finalize name f);
    list_pvcs = λ namespace selector w. k.list_pvcs namespace selector (env w);
    set_dependency_of = λ p. late (k.set_dependency_of p);
    new_rng = λ w. k.new_rng (env w);
    uint64_n = λ r n w. k.uint64_n r n (env w);
    new_id = λ w. k.new_id (env w);
    record_event = λ e w. k.record_event e (env w);
  }

  module _ (f : Frame k) where
    abbrev pub same_frame : Frame disturbed
    same_frame = record { Safe = f.Safe; Own = f.Own; IsPool = f.IsPool; IsCheckout = f.IsCheckout }

    there : (ps : PoolState) → OwnsAll k f ps → OwnsAll disturbed same_frame ps
    there ps h = record {
      is_pool = h.is_pool;
      initializing = h.initializing;
      available = h.available;
      stale = h.stale;
    }

    back : (ps : PoolState) → OwnsAll disturbed same_frame ps → OwnsAll k f ps
    back ps h = record {
      is_pool = h.is_pool;
      initializing = h.initializing;
      available = h.available;
      stale = h.stale;
    }

    module _ (env-Safe : (w : k.World) → f.Safe w → f.Safe (env w)) where
      pub disturbed-ReadLaws : ReadLaws k f → ReadLaws disturbed same_frame
      disturbed-ReadLaws l = record {
        load_job-Safe = λ s h. l.load_job-Safe (env s.0, s.1) (env-Safe s.0 h);
        delete_job-Safe = λ p s h. l.delete_job-Safe p (env s.0, s.1) (env-Safe s.0 h);
        set_dependency_of-Safe =
            λ p s h. l.set_dependency_of-Safe p (env s.0, s.1) (env-Safe s.0 h);
        load_pv-Safe = λ s h. l.load_pv-Safe (env s.0, s.1) (env-Safe s.0 h);
        list_pvcs-Safe =
            λ namespace selector w h. l.list_pvcs-Safe namespace selector (env w) (env-Safe w h);
        new_rng-Safe = λ w h. l.new_rng-Safe (env w) (env-Safe w h);
        uint64_n-Safe = λ r n w h. l.uint64_n-Safe r n (env w) (env-Safe w h);
        record_event-Safe = λ e w h. l.record_event-Safe e (env w) (env-Safe w h);
        load_pool-Safe = λ s h. l.load_pool-Safe (env s.0, s.1) (env-Safe s.0 h);
        update_pool_status-Safe = λ s h. l.update_pool_status-Safe (env s.0, s.1) (env-Safe s.0 h);
      }

      pub disturbed-ClaimLaws : ClaimLaws k f → ClaimLaws disturbed same_frame
      disturbed-ClaimLaws l = record {
        new_pvc-key = l.new_pvc-key;
        label_annotate_pvc-key = l.label_annotate_pvc-key;
        load_pvc-Safe = λ s h. l.load_pvc-Safe (env s.0, s.1) (env-Safe s.0 h);
        load_pvc-key = λ s. l.load_pvc-key (env s.0, s.1);
        pool_owns-Held = λ p s h. l.pool_owns-Held p (env s.0, s.1) (env-Safe s.0 h.0, h.1);
        persist_pvc-Held = λ s h. l.persist_pvc-Held (env s.0, s.1) (env-Safe s.0 h.0, h.1);
        delete_pvc-Held = λ p s h. l.delete_pvc-Held p (env s.0, s.1) (env-Safe s.0 h.0, h.1);
        persist_owned-Held = λ s h. l.persist_owned-Held (env s.0, s.1) (env-Safe s.0 h.0, h.1);
      }

      pub disturbed-PoolLaws : PoolLaws k f → PoolLaws disturbed same_frame
      disturbed-PoolLaws l = record {
        load_pool-IsPool = λ key w t h e. l.load_pool-IsPool key (env w) t (env-Safe w h) e;
        pool_claim-Own =
            λ uid s t h is e own. l.pool_claim-Own uid (env s.0, s.1) t (env-Safe s.0 h) is e own;
        new_id-Own = λ w h. l.new_id-Own (env w) (env-Safe w h);
        finalize-Held = λ name g s step h.
            let t =
              l.finalize-Held name g (env s.0, s.1)
                (λ u hu. let v = step u (hu.0, there u.1 hu.1) in (v.0, back (g u).1.1 v.1))
                (env-Safe s.0 h.0, back s.1 h.1) in
            (t.0, there (k.finalize name g (env s.0, s.1)).1.1 t.1);
      }

      pub disturbed-CheckoutLaws : CheckoutLaws k f → CheckoutLaws disturbed same_frame
      disturbed-CheckoutLaws l = record {
        load_checkout-Safe = λ s h. l.load_checkout-Safe (env s.0, s.1) (env-Safe s.0 h);
        require_pool-Gives = λ key w h. l.require_pool-Gives key (env w) (env-Safe w h);
        checkout_claim-Own = λ uid s t h is e own.
            l.checkout_claim-Own uid (env s.0, s.1) t (env-Safe s.0 h) is e own;
        absent_claim-Own = λ s t h e. l.absent_claim-Own (env s.0, s.1) t (env-Safe s.0 h) e;
        checkout_owns-Held = λ c s h. l.checkout_owns-Held c (env s.0, s.1) (env-Safe s.0 h.0, h.1);
        update_checkout_status-Safe =
            λ s h. l.update_checkout_status-Safe (env s.0, s.1) (env-Safe s.0 h);
      }

      pub disturbed-KeyLaws :
          (IsReconciled : _) → KeyLaws k f IsReconciled → KeyLaws disturbed same_frame IsReconciled
      disturbed-KeyLaws IsReconciled l = record {
        load_checkout-IsCheckout =
            λ key w t is h e. l.load_checkout-IsCheckout key (env w) t is (env-Safe w h) e;
      }

      pub disturbed-VolumeLaws :
          (OwnVolume : String → Type 0)
          → VolumeLaws k f OwnVolume
          → VolumeLaws disturbed same_frame OwnVolume
      disturbed-VolumeLaws OwnVolume l = record {
        persist_pv-Safe = λ s own h. l.persist_pv-Safe (env s.0, s.1) own (env-Safe s.0 h);
        persist_pv-name = λ s. l.persist_pv-name (env s.0, s.1);
        delete_pv-Safe = λ p s own h. l.delete_pv-Safe p (env s.0, s.1) own (env-Safe s.0 h);
        delete_pv-name = λ p s. l.delete_pv-name p (env s.0, s.1);
      }

  abbrev pub same_store : Store k → Store disturbed
  same_store st = record { HasClaim = st.HasClaim; HasVolume = st.HasVolume }

  abbrev pub same_uids : Uids k → Uids disturbed
  same_uids ids = record { Distinct = ids.Distinct }

  module _ (st : Store k) (ids : Uids k) (owner : String) (c : Pvc) (v : Pv) where
    pub disturbed-LockLaws :
        let f = lock_frame k st ids owner c v in
        ((w : k.World) → f.Safe w → f.Safe (env w))
        → LockLaws k st ids owner c v
        → LockLaws disturbed (same_store st) (same_uids ids) owner c v
    disturbed-LockLaws env-Safe l = record {
      load_pv-same = λ s h. l.load_pv-same (env s.0, s.1) (env-Safe s.0 h);
      load_pv-name = λ s. l.load_pv-name (env s.0, s.1);
      load_pvc-same = λ s t h e same. l.load_pvc-same (env s.0, s.1) t (env-Safe s.0 h) e same;
      new_volume-Other = l.new_volume-Other;
    }
