-- ===== src/Replica/Owned.antt =====
-- Which claims the methods of a replica (pkg/controller/app/pool_replica.go) write.
use pvpool.Prelude.{sym, subst, Bool-cases, Option-cases, inl, inr}
use pvpool.Exec.Rules.{Keeps-bind}
use pvpool.Api.Resources.{Pool}
use pvpool.Api.State.{PoolReplica}
use pvpool.Kube.{Kube, default, foreground}
use pvpool.Kube.Frame.{Frame, Owns, ReadLaws, ClaimLaws}
use pvpool.Replica.{delete, persist, on_claim, on_job, create_job, label_job}
use pvpool.Replica.Phase.{is_available}

module _ (k : Kube) (f : Frame k) where
  -- A safe world, and a replica whose claim may be written.
  abbrev pub ReplicaHeld : k.World × PoolReplica → Type 0
  ReplicaHeld s = f.Safe s.0 × Owns k f s.1

module _ (k : Kube) (f : Frame k) (reads : ReadLaws k f) (claims : ClaimLaws k f) where
  pub delete-ReplicaHeld :
      (s : k.World × PoolReplica) → ReplicaHeld k f s → ReplicaHeld k f (delete k s).1
  unfolding delete
  delete-ReplicaHeld s h =
      Keeps-bind (ReplicaHeld k f) (on_job k (k.delete_job default)) _ s
        (reads.delete_job-Safe default (s.0, s.1.init_job) h.0, h.1)
        λ _ t ht. claims.delete_pvc-Held default (t.0, t.1.claim) ht

  label_job-Owns :
      (pool : Pool) (r : PoolReplica) → Owns k f r → Owns k f (label_job k pool.spec.init_job r)
  label_job-Owns pool r h = elim (Option-cases pool.spec.init_job) [
    | inl missing ↦ rw missing h
    | inr (j, e) ↦ rw e h
  ]

  create_job-ReplicaHeld :
      (pool : Pool) (s : k.World × PoolReplica)
      → ReplicaHeld k f s
      → ReplicaHeld k f (create_job k pool s).1
  create_job-ReplicaHeld pool s h =
      let s0 : k.World × PoolReplica = (s.0, label_job k pool.spec.init_job s.1) in
      Keeps-bind (ReplicaHeld k f) (on_job k (k.set_dependency_of pool)) _ s0
        (reads.set_dependency_of-Safe pool (s0.0, s0.1.init_job) h.0, label_job-Owns pool s.1 h.1)
        λ _ t ht. claims.persist_owned-Held (t.0, (t.1.claim, t.1.init_job)) ht

  pub persist-ReplicaHeld :
      (pool : Pool) (s : k.World × PoolReplica)
      → ReplicaHeld k f s
      → ReplicaHeld k f (persist k pool s).1
  unfolding persist
  persist-ReplicaHeld pool s h =
      let s0 : k.World × PoolReplica =
        (s.0, record s.1 { claim = k.label_annotate_pvc pool.spec.template.metadata s.1.claim }) in
      Keeps-bind (ReplicaHeld k f) (on_claim k (k.pool_owns pool)) _ s0
        (claims.pool_owns-Held pool (s0.0, s0.1.claim)
          (
            h.0,
            subst f.Own (sym (claims.label_annotate_pvc-key pool.spec.template.metadata s.1.claim))
                h.1,
          ))
        λ _ t ht. elim (Bool-cases (is_available t.1)) [
          | inl ready ↦ rw ready (
              Keeps-bind (ReplicaHeld k f) (on_job k (k.delete_job foreground)) _ t
                (reads.delete_job-Safe foreground (t.0, t.1.init_job) ht.0, ht.1)
                λ _ u hu. claims.persist_pvc-Held (u.0, u.1.claim) hu)
          | inr waits ↦ elim (Bool-cases (k.exists_object t.1.init_job.metadata)) [
            | inl there ↦ rw (waits, there) (claims.persist_pvc-Held (t.0, t.1.claim) ht)
            | inr absent ↦ rw (waits, absent) (create_job-ReplicaHeld pool t ht)
          ]
        ]
