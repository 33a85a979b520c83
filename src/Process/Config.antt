-- ===== src/Process/Config.antt =====
-- pkg/opt/config.go. The options come from viper, whose global state NewConfig changes and reads.
use pvpool.Prelude.{ℤ, pos, String, Bool}

-- Nanoseconds.
abbrev pub Duration : Type 0
Duration = ℤ

-- `1*time.Minute`
abbrev pub minute : Duration
minute = pos 60000000000

pub record Config : Type 0 where
  pub debug : Bool
  pub name : String
  pub namespace : String
  pub controller_max_reconcile_backoff_duration : Duration
  pub webhook_service_name : String
  pub webhook_certificate_secret_name : String
  pub validating_webhook_configuration_name : String

pub record Viper : Type 1 where
  pub State : Type 0
  pub set_env_prefix : String → State → State
  pub automatic_env : State → State
  pub set_default : String → String → State → State
  pub set_default_duration : String → Duration → State → State
  pub get_bool : String → State → Bool
  pub get_string : String → State → String
  pub get_duration : String → State → Duration

module _ (v : Viper) where
  -- The settings that NewConfig makes before it reads any.
  abbrev pub prepared : String → v.State → v.State
  prepared default_name s =
      v.set_default_duration "controller_max_reconcile_backoff_duration" minute
        (v.set_default "name" default_name (v.automatic_env (v.set_env_prefix "pvpool" s)))

  unfoldable pub new_config : String → v.State → Config × v.State
  new_config default_name s0 =
      let s = prepared default_name s0 in
      (
        record {
          debug = v.get_bool "debug" s;
          name = v.get_string "name" s;
          namespace = v.get_string "namespace" s;
          controller_max_reconcile_backoff_duration =
              v.get_duration "controller_max_reconcile_backoff_duration" s;
          webhook_service_name = v.get_string "webhook_service_name" s;
          webhook_certificate_secret_name = v.get_string "webhook_certificate_secret_name" s;
          validating_webhook_configuration_name =
              v.get_string "validating_webhook_configuration_name" s;
        },
        s,
      )
