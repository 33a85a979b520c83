-- ===== src/Replica/Configure.antt =====
-- ConfigurePoolReplica of pkg/controller/app/pool_replica.go.
use pvpool.Prelude.{String, ◌||◌, Option, none, some, List, [], ◌∷◌, ◌==◌, if◌then◌else◌}
use pvpool.Api.Core.{PvcSpec, AccessMode}
use pvpool.Api.Resources.{Pool}
use pvpool.Api.State.{PoolReplica}
use pvpool.Kube.{Kube}
use pvpool.Replica.Phase.{
  phase_key, phase_initializing, phase_available, is_bound, is_pending, is_stale, is_available,
}
use pvpool.Replica.Jobs.{configure_job}

-- A storageClassName of "" would disable dynamic provisioning.
unfoldable pub named_class : Option String → Option String
named_class none = none
named_class (some c) = if c == "" then none else some c

unfoldable pub modes_or_default : List AccessMode → List AccessMode
modes_or_default [] = "ReadWriteOnce" ∷ []
modes_or_default (m ∷ ms) = m ∷ ms

-- The spec of a claim that is not yet pending or bound, from the template's.
unfoldable pub configure_claim : PvcSpec → PvcSpec
unfolding named_class modes_or_default
configure_claim spec = record spec {
  storage_class_name = named_class spec.storage_class_name;
  selector = none;
  volume_name = "";
  access_modes = modes_or_default spec.access_modes;
}

module _ (k : Kube) where
  unfoldable pub annotate_phase : String → PoolReplica → PoolReplica
  annotate_phase v r = record r {
    claim = record (r.claim) { metadata = k.annotate r.claim.metadata phase_key v };
  }

  unfoldable pub provision : Pool → PoolReplica → PoolReplica
  provision pool r =
      if is_pending r.claim.phase || is_bound r.claim.phase
      then r
      else record r { claim = record (r.claim) { spec = configure_claim pool.spec.template.spec } }

  unfoldable pub prepare_job : Pool → PoolReplica → PoolReplica
  prepare_job pool r = record r {
    init_job = record (r.init_job) { spec = configure_job pool.spec.init_job r.claim.key.name };
  }

  unfoldable pub configure : Pool → PoolReplica → PoolReplica
  configure pool r =
      if is_stale k r || is_available r
      then r
      else if k.succeeded r.init_job
      then annotate_phase phase_available (provision pool r)
      else annotate_phase phase_initializing (prepare_job pool (provision pool r))
