-- ===== src/Replica/Persisting.antt =====
-- How Persist of a replica (pkg/controller/app/pool_replica.go) ends.
use pvpool.Prelude.{Bool-cases, inl, inr}
use pvpool.Exec.{Returns}
use pvpool.Exec.Rules.{Returns-bind}
use pvpool.Api.Resources.{Pool}
use pvpool.Api.State.{PoolReplica}
use pvpool.Kube.{Kube, foreground}
use pvpool.Kube.Laws.{ReplicaLaws}
use pvpool.Replica.{persist, on_claim, on_job, create_job, label_job}
use pvpool.Replica.Phase.{is_available}

module _ (k : Kube) (laws : ReplicaLaws k) where
  create_job-Returns : (pool : Pool) (s : k.World × PoolReplica) → Returns (create_job k pool s).0
  create_job-Returns pool s =
      let s0 : k.World × PoolReplica = (s.0, label_job k pool.spec.init_job s.1) in
      Returns-bind (on_job k (k.set_dependency_of pool)) _ s0
        (laws.set_dependency_of-Returns pool (s0.0, s0.1.init_job))
        λ _ t _. laws.persist_owned-Returns (t.0, (t.1.claim, t.1.init_job))

  pub persist-Returns : (pool : Pool) (s : k.World × PoolReplica) → Returns (persist k pool s).0
  unfolding persist
  persist-Returns pool s =
      let s0 : k.World × PoolReplica =
        (s.0, record s.1 { claim = k.label_annotate_pvc pool.spec.template.metadata s.1.claim }) in
      Returns-bind (on_claim k (k.pool_owns pool)) _ s0
        (laws.pool_owns-Returns pool (s0.0, s0.1.claim))
        λ _ t _. elim (Bool-cases (is_available t.1)) [
          | inl ready ↦ rw ready (
              Returns-bind (on_job k (k.delete_job foreground)) _ t
                (laws.replica_delete_job-Returns foreground (t.0, t.1.init_job))
                λ _ u _. laws.replica_persist_pvc-Returns (u.0, u.1.claim))
          | inr waits ↦ elim (Bool-cases (k.exists_object t.1.init_job.metadata)) [
            | inl there ↦ rw (waits, there) (laws.replica_persist_pvc-Returns (t.0, t.1.claim))
            | inr absent ↦ rw (waits, absent) (create_job-Returns pool t)
          ]
        ]
