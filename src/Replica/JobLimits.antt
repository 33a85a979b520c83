-- ===== src/Replica/JobLimits.antt =====
-- The init job that the controller makes of a template that the webhook's validation accepts.
use pvpool.Prelude.{◌≡◌, refl, arith, ◌==◌, if◌then◌else◌, Option, none, some, String, [], pos}
use pvpool.Api.Core.{JobSpec, never}
use pvpool.Api.Resources.{MountJob}
use pvpool.Validation.Rules.{FieldPath, validate_mount_job}
use pvpool.Replica.Jobs.{configure_job}
use pvpool.Replica.Volumes.{find_volume, with_claim_name, found_or_new, find_volume-mount_claim}

abbrev pub value_or {ℓ} : {A : Type ℓ} → A → Option A → A
value_or a none = a
value_or a (some b) = b

-- The spec that the controller makes of an init job is the template's: the containers and all that
-- the limits are not about are the same, the pods never restart, the backoff limit is kept, and so
-- is the deadline, which is 300 seconds where the template has none. The volume that the pool names
-- holds the claim, and every other name has the volume that the template gives it.
pub record RunsAsAsked (j : MountJob) (claim : String) (spec : JobSpec) : Type 0 where
  pub same_containers : spec.pod.containers ≡ j.template.spec.pod.containers
  pub same_pod : spec.pod.rest ≡ j.template.spec.pod.rest
  pub same_job : spec.rest ≡ j.template.spec.rest
  pub never_restarts : spec.pod.restart_policy ≡ never
  pub same_backoff : spec.backoff_limit ≡ j.template.spec.backoff_limit
  pub same_deadline :
      spec.active_deadline_seconds
      ≡ some (value_or (pos 300) j.template.spec.active_deadline_seconds)
  pub mounts :
      (name : String)
      → find_volume name spec.pod.volumes ≡ (
          if j.volume_name == name
          then some (with_claim_name claim (found_or_new j.volume_name j.template.spec.pod.volumes))
          else find_volume name j.template.spec.pod.volumes)

pub accepted_job :
    (j : MountJob) (p : FieldPath) (claim : String)
    → validate_mount_job j p ≡ []
    → RunsAsAsked j claim (configure_job (some j) claim)
unfolding validate_mount_job configure_job
accepted_job j p claim h = record {
  same_containers = refl;
  same_pod = refl;
  same_job = refl;
  never_restarts = ground arith;
  same_backoff = ground arith;
  same_deadline = ground arith;
  mounts = find_volume-mount_claim j.template.spec.pod.volumes j.volume_name claim;
}
