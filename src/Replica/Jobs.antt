-- ===== src/Replica/Jobs.antt =====
-- The part of ConfigurePoolReplica (pkg/controller/app/pool_replica.go) that sets up the init job.
-- A struct copy shares its slices in Go; here the job's volumes are a copy of the template's.
use pvpool.Prelude.{
  ℕ, zero, suc, String, Option, none, some, List, [], ◌∷◌, ◌++◌, ◌==◌, if◌then◌else◌, length, ℤ,
  ltb_ℤ,
}
use pvpool.Api.Core.{RestartPolicy, unset, Volume, JobSpec}
use pvpool.Api.Resources.{MountJob}
use pvpool.Validation.Limits.{
  mount_job_restart_policy, mount_job_max_active_deadline_seconds, mount_job_max_backoff_limit,
}

-- DefaultPoolReplicaInitJobSpec.
abbrev pub default_job_spec : JobSpec
default_job_spec = record {
  active_deadline_seconds = none;
  backoff_limit = some mount_job_max_backoff_limit;
  pod = record {
    restart_policy = unset;
    volumes = [];
    containers =
        ("init", "busybox@sha256:8d0c42425011ea3fb5b4ec5a121dde4ce986c2efea46be9d981a478fe1d206ec")
        ∷ [];
    rest = [];
  };
  rest = [];
}

-- The spec to start from, and the name of the volume.
abbrev pub template_spec : Option MountJob → JobSpec
template_spec none = default_job_spec
template_spec (some j) = j.template.spec

abbrev pub volume_name : Option MountJob → String
volume_name none = "workspace"
volume_name (some j) = j.volume_name

unfoldable pub restart_or_never : RestartPolicy → RestartPolicy
restart_or_never unset = mount_job_restart_policy
restart_or_never p = p

unfoldable pub cap_deadline : Option ℤ → Option ℤ
cap_deadline none = some mount_job_max_active_deadline_seconds
cap_deadline (some d) =
    if ltb_ℤ mount_job_max_active_deadline_seconds d
    then some mount_job_max_active_deadline_seconds
    else some d

unfoldable pub cap_backoff : Option ℤ → Option ℤ
cap_backoff none = none
cap_backoff (some b) =
    if ltb_ℤ mount_job_max_backoff_limit b then some mount_job_max_backoff_limit else some b

-- The loop of indexVolumeByName from position `i` on; `none` is -1.
unfoldable pub index_volume_from : ℕ → List Volume → String → Option ℕ
index_volume_from i [] name = none
index_volume_from i (v ∷ vols) name =
    if v.name == name then some i else index_volume_from (suc i) vols name

unfoldable pub index_volume_by_name : List Volume → String → Option ℕ
unfolding index_volume_from
index_volume_by_name vols name = index_volume_from 0 vols name

-- `vols[i].PersistentVolumeClaim = …`
unfoldable pub set_claim_at : ℕ → String → List Volume → List Volume
set_claim_at i claim [] = []
set_claim_at zero claim (v ∷ vols) = record v { claim_name = some claim } ∷ vols
set_claim_at (suc i) claim (v ∷ vols) = v ∷ set_claim_at i claim vols

-- Gives the volume called `name` the claim, adding the volume if there is none.
unfoldable pub mount_claim : List Volume → String → String → List Volume
unfolding index_volume_by_name set_claim_at
mount_claim vols name claim = elim (index_volume_by_name vols name) [
  | none ↦
      set_claim_at (length vols) claim
        (vols ++ record { name = name; claim_name = none; rest = [] } ∷ [])
  | some i ↦ set_claim_at i claim vols
]

-- The spec of the init job of a claim.
unfoldable pub configure_job : Option MountJob → String → JobSpec
unfolding restart_or_never cap_deadline cap_backoff mount_claim
configure_job mount claim =
    let spec = template_spec mount in
    record spec {
      active_deadline_seconds = cap_deadline spec.active_deadline_seconds;
      backoff_limit = cap_backoff spec.backoff_limit;
      pod = record (spec.pod) {
        restart_policy = restart_or_never spec.pod.restart_policy;
        volumes = mount_claim spec.pod.volumes (volume_name mount) claim;
      };
    }
