-- ===== src/Validation/Limits.antt =====
-- The constants of validation.go.
use pvpool.Prelude.{ℤ, pos}
use pvpool.Api.Core.{RestartPolicy, never}

abbrev pub mount_job_restart_policy : RestartPolicy
mount_job_restart_policy = never

abbrev pub mount_job_max_active_deadline_seconds : ℤ
mount_job_max_active_deadline_seconds = pos 300

abbrev pub mount_job_max_backoff_limit : ℤ
mount_job_max_backoff_limit = pos 10
