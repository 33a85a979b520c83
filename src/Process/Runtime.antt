-- ===== src/Process/Runtime.antt =====
-- Main of pkg/runtime/main.go, over the process and controller-runtime as a parameter.
use pvpool.Prelude.{ℕ, suc, String, Bool, true, Option, none, some, List, [], ◌∷◌, if◌then◌else◌}
use pvpool.Exec.{Outcome, ok, err, Exec, pure, modify, raise, catch, ◌>>=◌, ◌>>◌}
use pvpool.Process.Config.{Config}

-- manager.Options, cut down to the fields that the source sets.
pub record Options (Scheme : Type 0) : Type 0 where
  pub scheme : Option Scheme
  pub leader_election : Bool
  pub leader_election_resource_lock : String
  pub leader_election_id : String
  pub leader_election_namespace : String
  pub leader_election_release_on_cancel : Bool
  pub health_probe_bind_address : String
  pub namespace : String

-- The process and its libraries; a manager is changed by what is added to it.
pub record Host (World Error Manager : Type 0) : Type 1 where
  pub Scheme : Type 0
  -- mainutil.TrapAndWait: runs the function until it ends or a signal comes, for an exit code
  pub trap_and_wait : Exec Error World (Unit {0}) → World → ℕ × World
  pub flush_logs : World → World
  pub parse_flags : World → World
  pub init_klog_flags : World → World
  pub set_klog_flag : String → String → World → World
  pub set_logger : World → World
  -- runtime.NewScheme, and AddToScheme of the builder of the two schemes
  pub new_scheme : Scheme
  pub add_to_scheme : Exec Error Scheme (Unit {0})
  -- manager.New for the cluster's configuration, and the manager's Start with an event recorder
  pub new_manager : Options Scheme → Exec Error World Manager
  pub start_manager : String → Exec Error (World × Manager) (Unit {0})
  pub leases_resource_lock : String
  pub sprintf : String → List String → String
  pub wrap : String → Error → Error
  pub wrap_at : String → ℕ → Error → Error

module _ {World Error Manager : Type 0} (h : Host World Error Manager) where
  abbrev pub Transform : Type 0
  Transform = Exec Error (World × Manager) (Unit {0})

  abbrev pub set_verbosity : Config → World → World
  set_verbosity cfg w = if cfg.debug then h.set_klog_flag "v" "5" w else w

  abbrev pub set_up_logs : Config → World → World
  set_up_logs cfg w = h.set_logger (set_verbosity cfg (h.init_klog_flags (h.parse_flags w)))

  abbrev of_new_scheme :
      Outcome Error (Unit {0}) × h.Scheme → World → Outcome Error h.Scheme × World
  of_new_scheme (ok _, s) w = (ok s, w)
  of_new_scheme (err e, s) w = (err (h.wrap "failed to create scheme: %w" e), w)
  of_new_scheme (Outcome.panic, s) w = (Outcome.panic, w)
  of_new_scheme (Outcome.timeout, s) w = (Outcome.timeout, w)

  -- The scheme of the options, or a new one.
  abbrev pub scheme_or_new : Option h.Scheme → Exec Error World h.Scheme
  scheme_or_new (some s) = pure s
  scheme_or_new none = of_new_scheme (h.add_to_scheme h.new_scheme)

  unfoldable pub complete_options : Config → h.Scheme → Options h.Scheme → Options h.Scheme
  complete_options cfg scheme opts = record opts {
    scheme = some scheme;
    leader_election_resource_lock = h.leases_resource_lock;
    leader_election_id = h.sprintf "%s.lease.pvpool.puppet.com" (cfg.name ∷ []);
    leader_election_namespace = cfg.namespace;
    leader_election_release_on_cancel = true;
  }

  -- The loop over the transforms, from position `i`.
  unfoldable pub apply_transforms : ℕ → List Transform → Transform
  apply_transforms i [] = pure tt
  apply_transforms i (t ∷ ts) =
      catch t (λ e. raise (h.wrap_at "failed to apply manager transform #%d: %w" i e))
      >> apply_transforms (suc i) ts

  -- The rest, once there is a manager.
  abbrev pub run_manager : Config → List Transform → Manager → Exec Error World (Unit {0})
  run_manager cfg ts m w =
      let (res, s) = (apply_transforms 0 ts >> h.start_manager cfg.name) (w, m) in (res, s.0)

  unfoldable pub serve : Config → Options h.Scheme → List Transform → Exec Error World (Unit {0})
  serve cfg opts ts = do
    modify (set_up_logs cfg)
    scheme ← scheme_or_new opts.scheme
    m ←
        catch (h.new_manager (complete_options cfg scheme opts))
          (λ e. raise (h.wrap "failed to create manager: %w" e))
    run_manager cfg ts m

  -- The function that TrapAndWait runs: the logs are flushed however it ends.
  abbrev pub flushed : Exec Error World (Unit {0}) → Exec Error World (Unit {0})
  flushed m w = let (res, w') = m w in (res, h.flush_logs w')

  unfoldable pub main : Config → Options h.Scheme → List Transform → World → ℕ × World
  main cfg opts ts = h.trap_and_wait (flushed (serve cfg opts ts))
