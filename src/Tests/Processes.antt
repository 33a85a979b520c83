-- ===== src/Tests/Processes.antt =====
-- A run of the webhook's process, on the small webhook server.
use pvpool.Prelude.{◌≡◌, refl, String, List, [], ◌∷◌, ◌==◌, false, if◌then◌else◌}
use pvpool.Exec.{ok}
use pvpool.Process.Config.{Config, Viper, minute, new_config}
use pvpool.Process.Runtime.{Host, Transform, serve, apply_transforms}
use pvpool.Process.Started.{IsStarted, serve-IsStarted}
use pvpool.Process.Commands.{no_options, on_manager}
use pvpool.Webhook.Server.{Handler, add_checkout_validator, add_pool_validator}
use pvpool.Tests.Webhooks.{gate, schema}
use pvpool.Tests.Servers.{server}

abbrev Manager : Type 0
Manager = List (String × Handler gate)

abbrev host : Host (Unit {0}) String Manager
host = record {
  Scheme = Unit {0};
  trap_and_wait = λ m w. (0, (m w).1);
  flush_logs = λ w. w;
  parse_flags = λ w. w;
  init_klog_flags = λ w. w;
  set_klog_flag = λ _ _ w. w;
  set_logger = λ w. w;
  new_scheme = tt;
  add_to_scheme = λ s. (ok tt, s);
  new_manager = λ _ w. (ok [], w);
  start_manager = λ _ s. (ok tt, s);
  leases_resource_lock = "leases";
  sprintf = λ format _. format;
  wrap = λ _ e. e;
  wrap_at = λ _ _ e. e;
}

-- Settings are what is in the environment, or else the defaults: the newest comes first.
abbrev viper : Viper
viper = record {
  State = List (String × String);
  set_env_prefix = λ _ s. s;
  automatic_env = λ s. s;
  set_default = λ key value s. (key, value) ∷ s;
  set_default_duration = λ _ _ s. s;
  get_bool = λ _ _. false;
  get_string = λ key s. elim s [ [] ↦ "" | p ∷ _ ↦ if p.0 == key then p.1 else "" ];
  get_duration = λ _ _. minute;
}

abbrev config : Config
config = (new_config viper "pvpool-webhook" []).0

named : config.name ≡ "pvpool-webhook"
unfolding new_config
named = refl

abbrev transforms : List (Transform host)
transforms =
    on_manager (add_checkout_validator schema gate server)
    ∷ on_manager (add_pool_validator schema gate server)
    ∷ []

serve-IsStarted_example : IsStarted host config no_options transforms tt tt
serve-IsStarted_example =
    serve-IsStarted host config no_options transforms tt tt
      (unfold serve apply_transforms add_checkout_validator add_pool_validator in refl)
