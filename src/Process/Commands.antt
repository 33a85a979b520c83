-- ===== src/Process/Commands.antt =====
-- The commands under cmd: what each adds to its manager, and with which options it runs.
use pvpool.Prelude.{ℕ, String, Bool, true, false, none, [], ◌∷◌, if◌then◌else◌}
use pvpool.Exec.{Exec, pure, raise, catch}
use pvpool.Api.Core.{Key}
use pvpool.Kube.{Kube}
use pvpool.Validation.Rules.{Schema}
use pvpool.Webhook.Access.{Gate}
use pvpool.Webhook.Server.{Server, add_checkout_validator, add_pool_validator}
use pvpool.Process.Config.{Config, Viper, new_config}
use pvpool.Process.Runtime.{Options, Host, Transform, main}
use pvpool.Process.Controllers.{Controller, pool_controller, checkout_controller}

abbrev pub no_options : {Scheme : Type 0} → Options Scheme
no_options = record {
  scheme = none;
  leader_election = false;
  leader_election_resource_lock = "";
  leader_election_id = "";
  leader_election_namespace = "";
  leader_election_release_on_cancel = false;
  health_probe_bind_address = "";
  namespace = "";
}

-- A change of the manager only.
abbrev pub on_manager : {E W M : Type 0} → Exec E M (Unit {0}) → Exec E (W × M) (Unit {0})
on_manager m (w, mgr) = let (res, mgr') = m mgr in (res, (w, mgr'))

module _ (v : Viper) (settings : v.State) where
  abbrev pub config : String → Config
  config default_name = (new_config v default_name settings).0

  -- cmd/pvpool-webhook
  unfoldable pub webhook_main :
      (c : Schema) (g : Gate) (s : Server g)
      → Host g.World g.Error s.Manager
      → g.World
      → ℕ × g.World
  webhook_main c g s h =
      main h (config "pvpool-webhook") (record no_options { health_probe_bind_address = ":8000" })
        (on_manager (add_checkout_validator c g s) ∷ on_manager (add_pool_validator c g s) ∷ [])

  -- cmd/pvpool-controller; `complete` is the Complete of controller-runtime's builder
  unfoldable pub controller_main :
      (k : Kube) (Manager : Type 0)
      → Host k.World k.Error Manager
      → (Controller k.World k.Error → Exec k.Error Manager (Unit {0}))
      → k.World
      → ℕ × k.World
  controller_main k Manager h complete =
      let cfg = config "pvpool-controller" in
      main h cfg (record no_options { leader_election = true })
        (on_manager (complete (checkout_controller k cfg))
          ∷ on_manager (complete (pool_controller k cfg))
          ∷ [])

-- The k8sutil library's parts of the certificate controller.
pub record Certificates (World Error Manager : Type 0) : Type 0 where
  -- Persist of an empty TLS secret under a key
  pub persist_secret : Key → Exec Error World (Unit {0})
  pub is_already_exists : Error → Bool
  -- webhookcert and selfsignedsecret: AddReconcilerToManager
  pub add_webhook_cert : Key → (webhook_configuration : String) → Exec Error Manager (Unit {0})
  pub add_self_signed_secret : Key → (organization host : String) → Exec Error Manager (Unit {0})

module _ {World Error Manager : Type 0} (h : Host World Error Manager)
    (lib : Certificates World Error Manager) where
  abbrev ensure_secret : Key → Transform h
  ensure_secret key (w, mgr) =
      let (res, w') =
        catch (lib.persist_secret key) (λ e. if lib.is_already_exists e then pure tt else raise e)
          w in
      (res, (w', mgr))

  -- cmd/pvpool-webhook-certificate-controller
  unfoldable pub certificate_main : (v : Viper) → v.State → World → ℕ × World
  certificate_main v settings =
      let cfg = config v settings "pvpool-webhook-certificate-controller" in
      let key : Key = record {
        namespace = cfg.namespace;
        name = cfg.webhook_certificate_secret_name;
      } in
      main h cfg (record no_options { leader_election = true; namespace = cfg.namespace })
        (ensure_secret key
          ∷ on_manager (lib.add_webhook_cert key cfg.validating_webhook_configuration_name)
          ∷ on_manager (
              lib.add_self_signed_secret key "Puppet, Inc."
                (h.sprintf "%s.%s.svc" (cfg.webhook_service_name ∷ cfg.namespace ∷ [])))
          ∷ [])
