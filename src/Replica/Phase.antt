-- ===== src/Replica/Phase.antt =====
-- The tests Stale and Available of pkg/controller/app/pool_replica.go, and what they compare.
use pvpool.Prelude.{zero, suc, String, Bool, true, false, not, ◌&&◌, ◌||◌, Option, none, some}
use pvpool.Prelude.{◌==◌, text_at, is_some}
use pvpool.Api.Core.{ClaimPhase, pending, bound, lost, Time}
use pvpool.Api.State.{PoolReplica}
use pvpool.Kube.{Kube}

abbrev pub phase_key : String
phase_key = "pvpool.puppet.com/replica.phase"

abbrev pub phase_initializing : String
phase_initializing = "Initializing"

abbrev pub phase_available : String
phase_available = "Available"

abbrev pub is_bound : ClaimPhase → Bool
is_bound bound = true
is_bound _ = false

abbrev pub is_pending : ClaimPhase → Bool
is_pending pending = true
is_pending _ = false

abbrev pub is_lost : ClaimPhase → Bool
is_lost lost = true
is_lost _ = false

-- A nil time is zero.
abbrev pub is_zero_time : Option Time → Bool
is_zero_time none = true
is_zero_time (some zero) = true
is_zero_time (some (suc t)) = false

unfoldable pub is_stale : Kube → PoolReplica → Bool
is_stale k r =
    not (is_zero_time r.claim.metadata.deleted) || is_lost r.claim.phase || k.failed r.init_job

unfoldable pub is_available : PoolReplica → Bool
is_available r =
    is_some r.volume && text_at phase_key r.claim.metadata.annotations == phase_available
