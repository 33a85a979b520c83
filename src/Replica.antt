-- ===== src/Replica.antt =====
-- PoolReplica of pkg/controller/app/pool_replica.go: a claim, the volume that it is bound to, and
-- the job that initializes it. ConfigurePoolReplica is Replica/Configure.
pub mod Phase
pub mod Jobs
pub mod Configure
pub mod JobLimits
pub mod Volumes
pub mod Readiness
pub mod Removal
pub mod Persisting
pub mod LoadEnds
pub mod Found
pub mod Owned
pub mod Sharing
pub mod Loading
pub mod Taken
use pvpool.Prelude.{
  ℕ, zero, suc, ◌-◌, String, Bool, true, false, not, ◌&&◌, ◌||◌, Option, none, some, List, [], ◌∷◌,
  ◌++◌, ◌==◌, if◌then◌else◌, length, get_elem?, set, take, text_at, is_some, ltb,
}
use pvpool.Exec.{Exec, ok, pure, gets, modify, deref, continue, on, ◌>>=◌, ◌>>◌}
use pvpool.Api.Core.{Key, ClaimPhase, unset, pending, bound, lost, Pvc, Pv, Job, Time}
use pvpool.Api.Resources.{Pool, MountJob}
use pvpool.Api.State.{PoolReplica}
use pvpool.Kube.{Kube, default, foreground, text}
use Phase.{is_available, is_bound}
use Configure.{configure}

-- PoolReplicasSortByCreationTimestamp.Less.
unfoldable pub created_before : PoolReplica → PoolReplica → Bool
created_before a b = ltb a.claim.metadata.created b.claim.metadata.created

abbrev pub with_claim : Pvc → PoolReplica → PoolReplica
with_claim c r = record r { claim = c }

abbrev pub with_job : Job → PoolReplica → PoolReplica
with_job j r = record r { init_job = j }

module _ (k : Kube) where
  abbrev pub Method : Type 0 → Type 0
  Method A = Exec k.Error (k.World × PoolReplica) A

  abbrev on_claim : {A : Type 0} → Exec k.Error (k.World × Pvc) A → Method A
  on_claim m = on (λ r. r.claim) with_claim m

  abbrev on_job : {A : Type 0} → Exec k.Error (k.World × Job) A → Method A
  on_job m = on (λ r. r.init_job) with_job m

  unfoldable pub new_replica : Key → PoolReplica
  new_replica key = record { claim = k.new_pvc key; volume = none; init_job = k.new_job key }

  -- Delete, with DeleteOption left at its default by every caller.
  unfoldable pub delete : Method Bool
  delete = do on_job (k.delete_job default); on_claim (k.delete_pvc default)

  -- The volume must point back at the claim; a volume with no ClaimRef is a nil dereference.
  abbrev use_volume : Pv → Bool → Method Bool
  use_volume v false = pure false
  use_volume v true = do
    ref ← deref v.spec.claim_ref
    uid ← gets (λ s. s.1.claim.metadata.uid)
    if ref.uid == uid
        then (do modify (λ s. (s.0, record s.1 { volume = some v })); pure true)
        else pure false

  abbrev load_volume : Method Bool
  load_volume (w, r) =
      let (res, s) = k.load_pv (w, k.new_pv r.claim.spec.volume_name) in
      continue res (use_volume s.1) (s.0, r)

  unfoldable pub load : Method Bool
  load = do
    on_job k.load_job
    found ← on_claim k.load_pvc
    phase ← gets (λ s. s.1.claim.phase)
    if not found then pure false else if is_bound phase then load_volume else pure true

  abbrev label_job : Option MountJob → PoolReplica → PoolReplica
  label_job none r = r
  label_job (some j) r = record r { init_job = k.label_annotate_job j.template.metadata r.init_job }

  -- The default case of the switch in Persist: the job is made for the first time.
  abbrev create_job : Pool → Method (Unit {0})
  create_job pool = do
    modify (λ s. (s.0, label_job pool.spec.init_job s.1))
    on_job (k.set_dependency_of pool)
    on (λ r. (r.claim, r.init_job)) (λ p r. record r { claim = p.0; init_job = p.1 })
        k.persist_owned

  unfoldable pub persist : Pool → Method (Unit {0})
  persist pool = do
    modify (λ s.
        (s.0, record s.1 { claim = k.label_annotate_pvc pool.spec.template.metadata s.1.claim }))
    on_claim (k.pool_owns pool)
    r ← gets (λ s. s.1)
    if is_available r
        then (do on_job (k.delete_job foreground); on_claim k.persist_pvc)
        else if k.exists_object r.init_job.metadata
        then on_claim k.persist_pvc
        else create_job pool

  -- ApplyPoolReplica: what Load finds or not is ignored, its error is not.
  unfoldable pub apply_replica : Pool → String → Exec k.Error k.World PoolReplica
  apply_replica pool id w =
      let key : Key = record {
        namespace = pool.key.namespace;
        name = k.meta_name_suffixed pool.key.name (k.sprintf "-%s" (text id ∷ []));
      } in
      let (res, s) =
        (do load; modify (λ s. (s.0, configure k pool s.1)); persist pool; gets (λ s. s.1))
          (w, new_replica key) in
      (res, s.0)

  abbrev pub take_at : ℕ → Exec k.Error (k.World × List PoolReplica) (Option PoolReplica)
  take_at i = do
    rs ← gets (λ s. s.1)
    r ← deref (get_elem? rs i)
    last ← deref (get_elem? rs (length rs - 1))
    modify (λ s. (s.0, take (length rs - 1) (set rs i last)))
    pure (some r)

  -- PoolReplicas.Pop: a random element; the last one takes its place.
  unfoldable pub pop : k.Rng → Exec k.Error (k.World × List PoolReplica) (Option PoolReplica)
  pop rng (w, []) = (ok none, (w, []))
  pop rng (w, r ∷ rs) =
      let (res, w') = k.uint64_n rng (length (r ∷ rs)) w in continue res take_at (w', r ∷ rs)
