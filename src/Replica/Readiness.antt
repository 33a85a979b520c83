-- ===== src/Replica/Readiness.antt =====
-- What ConfigurePoolReplica does to a replica's claim.
use pvpool.Prelude.{◌≡◌, refl, arith, false, ◌&&◌, ◌||◌, String, ◌==◌, is_some, text_at}
use pvpool.Api.Resources.{Pool}
use pvpool.Api.State.{PoolReplica}
use pvpool.Kube.{Kube}
use pvpool.Kube.Laws.{AnnotateLaws}
use pvpool.Replica.Phase.{phase_key, phase_available, phase_initializing, is_stale, is_available}
use pvpool.Replica.Configure.{configure, annotate_phase, provision, prepare_job}

module _ (k : Kube) (laws : AnnotateLaws k) where
  is_available-annotate_phase :
      (v : String) (r : PoolReplica)
      → is_available (annotate_phase k v r) ≡ (is_some r.volume && v == phase_available)
  unfolding is_available annotate_phase
  is_available-annotate_phase v r = rw (laws.annotate_self r.claim.metadata phase_key v, text_at)

  volume-provision : (pool : Pool) (r : PoolReplica) → (provision k pool r).volume ≡ r.volume
  unfolding provision
  volume-provision pool r = ground arith

  volume-prepare_job : (pool : Pool) (r : PoolReplica) → (prepare_job k pool r).volume ≡ r.volume
  unfolding prepare_job
  volume-prepare_job pool r = refl

  -- A replica that is not stale comes out of ConfigurePoolReplica available exactly when it was
  -- already, or when it has its volume and its init job succeeded.
  pub configure-is_available :
      (pool : Pool) (r : PoolReplica)
      → is_stale k r ≡ false
      → is_available (configure k pool r)
        ≡ (is_available r || (is_some r.volume && k.succeeded r.init_job))
  unfolding configure
  configure-is_available pool r fresh =
      let p = provision k pool r in
      ground (
        arith,
        volume-provision pool r,
        volume-prepare_job pool p,
        is_available-annotate_phase phase_available p,
        is_available-annotate_phase phase_initializing (prepare_job k pool p),
      )
