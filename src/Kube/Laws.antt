-- ===== src/Kube/Laws.antt =====
-- The documented behaviour of the third-party code that theorems rely on, one record for each
-- part, so that a theorem names the parts that it needs.
use mathlib.Core.List.{Perm}
use pvpool.Prelude.{ℕ, ◌<◌, ◌≡◌, String, Bool, true, false, List, [], ◌∷◌, some, lookup, is_some}
use pvpool.Exec.{Outcome, ok, err, panic, timeout, Returns, Exec}
use pvpool.Api.Core.{ObjectMeta, LabelSelector, Pvc, Pv, Job}
use pvpool.Api.State.{PoolReplica, PoolState}
use pvpool.Api.Resources.{Pool, Checkout}
use pvpool.Kube.{Kube, Propagation}
use pvpool.Replica.Phase.{is_bound}

abbrev pub Draws : {E : Type 0} → ℕ → Outcome E ℕ → Type 0
Draws n (ok i) = i < n
Draws n (err e) = Unit {0}
Draws n panic = ⊥
Draws n timeout = ⊥

-- rand.Uint64N(rng, n) gives a number below n, or an error.
pub record RandLaws (k : Kube) : Type 0 where
  pub uint64_n-Draws : (r : k.Rng) (n : ℕ) (w : k.World) → 0 < n → Draws n (k.uint64_n r n w).0

-- The random source and the deletions give a value or an error.
pub record DeleteLaws (k : Kube) : Type 0 where
  pub new_rng-Returns : (w : k.World) → Returns (k.new_rng w).0
  pub delete_job-Returns : (p : Propagation) (s : k.World × Job) → Returns (k.delete_job p s).0
  pub delete_pvc-Returns : (p : Propagation) (s : k.World × Pvc) → Returns (k.delete_pvc p s).0

-- No element is less than the one before it.
abbrev pub IsSorted : {A : Type 0} → (A → A → Bool) → List A → Type 0
IsSorted less [] = Unit {0}
IsSorted less (x ∷ []) = Unit {0}
IsSorted less (x ∷ y ∷ l) = (less y x ≡ false) × IsSorted less (y ∷ l)

-- sort.Sort permutes the elements into order.
pub record SortLaws (k : Kube) : Type 0 where
  pub sort-perm :
      (less : PoolReplica → PoolReplica → Bool) (rs : List PoolReplica)
      → Perm (k.sort_replicas less rs) rs
  pub sort-IsSorted :
      (less : PoolReplica → PoolReplica → Bool) (rs : List PoolReplica)
      → ((a b : PoolReplica) → less a b ≡ true → less b a ≡ false)
      → ((a b c : PoolReplica) → less b a ≡ false → less c b ≡ false → less c a ≡ false)
      → IsSorted less (k.sort_replicas less rs)

-- An annotation that is set is read back.
pub record AnnotateLaws (k : Kube) : Type 0 where
  pub annotate_self :
      (m : ObjectMeta) (key v : String) → lookup key (k.annotate m key v).annotations ≡ some v

-- Copying the labels and annotations of the same object once more changes nothing.
pub record CopyLaws (k : Kube) : Type 0 where
  pub copy_idem :
      (m from : ObjectMeta)
      → k.copy_labels_and_annotations (k.copy_labels_and_annotations m from) from
        ≡ k.copy_labels_and_annotations m from

-- The calls that Persist of CheckoutState makes give a value or an error.
pub record PersistLaws (k : Kube) : Type 0 where
  pub checkout_owns-Returns : (c : Checkout) (s : k.World × Pvc) → Returns (k.checkout_owns c s).0
  pub persist_pvc-Returns : (s : k.World × Pvc) → Returns (k.persist_pvc s).0
  pub delete_pvc-Returns : (p : Propagation) (s : k.World × Pvc) → Returns (k.delete_pvc p s).0
  pub persist_pv-Returns : (s : k.World × Pv) → Returns (k.persist_pv s).0
  pub delete_pv-Returns : (p : Propagation) (s : k.World × Pv) → Returns (k.delete_pv p s).0

-- The calls that Persist of PoolReplica makes give a value or an error.
pub record ReplicaLaws (k : Kube) : Type 0 where
  pub pool_owns-Returns : (p : Pool) (s : k.World × Pvc) → Returns (k.pool_owns p s).0
  pub replica_persist_pvc-Returns : (s : k.World × Pvc) → Returns (k.persist_pvc s).0
  pub replica_delete_job-Returns :
      (p : Propagation) (s : k.World × Job) → Returns (k.delete_job p s).0
  pub set_dependency_of-Returns :
      (p : Pool) (s : k.World × Job) → Returns (k.set_dependency_of p s).0
  pub persist_owned-Returns : (s : k.World × (Pvc × Job)) → Returns (k.persist_owned s).0

-- The calls that the Loads make give a value or an error. The API documents the ClaimRef of a
-- volume as not nil once the volume is bound; `bound_volume-Refers` says so of the volume that a
-- bound claim names, loaded right after the claim.
pub record LoadLaws (k : Kube) : Type 0 where
  pub load_job-Returns : (s : k.World × Job) → Returns (k.load_job s).0
  pub load_pvc-Returns : (s : k.World × Pvc) → Returns (k.load_pvc s).0
  pub load_pv-Returns : (s : k.World × Pv) → Returns (k.load_pv s).0
  pub list_pvcs-Returns :
      (namespace : String) (selector : k.Selector) (w : k.World)
      → Returns (k.list_pvcs namespace selector w).0
  pub as_selector-Returns : (s : LabelSelector) → Returns (k.as_selector s)
  pub bound_volume-Refers :
      (s : k.World × Pvc) (t : k.World × Pvc) (u : k.World × Pv)
      → k.load_pvc s ≡ (ok true, t)
      → is_bound t.1.phase ≡ true
      → k.load_pv (t.0, k.new_pv t.1.spec.volume_name) ≡ (ok true, u)
      → is_some u.1.spec.claim_ref ≡ true

-- The calls that a reconcile makes besides give a value or an error; Finalize does if the function
-- that it is given does.
pub record ReconcileLaws (k : Kube) : Type 0 where
  pub new_id-Returns : (w : k.World) → Returns (k.new_id w).0
  pub load_pool-Returns : (s : k.World × Pool) → Returns (k.load_pool s).0
  pub require_pool-Returns : (s : k.World × Pool) → Returns (k.require_pool s).0
  pub update_pool_status-Returns : (s : k.World × Pool) → Returns (k.update_pool_status s).0
  pub load_checkout-Returns : (s : k.World × Checkout) → Returns (k.load_checkout s).0
  pub update_checkout_status-Returns :
      (s : k.World × Checkout) → Returns (k.update_checkout_status s).0
  pub finalize-Returns :
      (name : String) (f : Exec k.Error (k.World × PoolState) (Unit {0})) (s : k.World × PoolState)
      → ((t : k.World × PoolState) → Returns (f t).0)
      → Returns (k.finalize name f s).0
