-- ===== src/Replica/LoadEnds.antt =====
-- How Load of a replica (pkg/controller/app/pool_replica.go) and ApplyPoolReplica end.
use pvpool.Prelude.{
  ◌≡◌, ap, ◌∙◌, String, Bool, true, false, is_some, ◌==◌, arith, Bool-cases, Option-cases, inl, inr,
}
use pvpool.Exec.{Outcome, ok, Returns}
use pvpool.Exec.Rules.{with_outcome, Returns-bind, Returns-continue}
use pvpool.Api.Core.{Pvc, Pv}
use pvpool.Api.Resources.{Pool}
use pvpool.Api.State.{PoolReplica}
use pvpool.Kube.{Kube}
use pvpool.Kube.Laws.{LoadLaws, ReplicaLaws}
use pvpool.Replica.{
  load, on_claim, on_job, use_volume, load_volume, apply_replica, new_replica, persist,
}
use pvpool.Replica.Phase.{is_bound}
use pvpool.Replica.Persisting.{persist-Returns}

module _ (k : Kube) (laws : LoadLaws k) where
  use_volume-Returns :
      (v : Pv) (s : k.World × PoolReplica)
      → is_some v.spec.claim_ref ≡ true
      → Returns (use_volume k v true s).0
  use_volume-Returns v s h = elim (Option-cases v.spec.claim_ref) [
    | inl missing ↦ absurd (ground arith)
    | inr (ref, e) ↦ elim (Bool-cases (ref.uid == s.1.claim.metadata.uid)) [
      | inl same ↦ rw (e, same) tt
      | inr differs ↦ rw (e, differs) tt
    ]
  ]

  -- The claim that was just loaded is bound, so the volume that it names has a ClaimRef.
  load_volume-Returns :
      (c : k.World × Pvc) (s : k.World × PoolReplica)
      → k.load_pvc c ≡ (ok true, (s.0, s.1.claim))
      → is_bound s.1.claim.phase ≡ true
      → Returns (load_volume k s).0
  load_volume-Returns c s found bound =
      let d = k.load_pv (s.0, k.new_pv s.1.claim.spec.volume_name) in
      Returns-continue d.0 (use_volume k d.1.1) (d.1.0, s.1)
        (laws.load_pv-Returns (s.0, k.new_pv s.1.claim.spec.volume_name))
        elim [
          | false ↦ λ _. tt
          | true ↦ λ e.
              use_volume-Returns d.1.1 (d.1.0, s.1)
                (laws.bound_volume-Refers c (s.0, s.1.claim) d.1 found bound (with_outcome d e))
        ]

  pub load-Returns : (s : k.World × PoolReplica) → Returns (load k s).0
  unfolding load
  load-Returns s =
      Returns-bind (on_job k k.load_job) _ s (laws.load_job-Returns (s.0, s.1.init_job)) λ _ s1 _.
        Returns-bind (on_claim k k.load_pvc) _ s1 (laws.load_pvc-Returns (s1.0, s1.1.claim))
          λ found s2 e. elim (Bool-cases found) [
            | inr gone ↦ rw gone tt
            | inl there ↦ elim (Bool-cases (is_bound s2.1.claim.phase)) [
              | inr loose ↦ rw (there, loose) tt
              | inl bound ↦
                  rw (there, bound)
                    (load_volume-Returns (s1.0, s1.1.claim) s2
                      (ap
                        (λ (q : Outcome k.Error Bool × (k.World × PoolReplica)).
                          (q.0, (q.1.0, q.1.1.claim)))
                        (e ∙ ap (λ (b : Bool). (ok b, s2)) there))
                      bound)
            ]
          ]

  pub apply_replica-Returns :
      ReplicaLaws k
      → (pool : Pool) (id : String) (w : k.World) → Returns (apply_replica k pool id w).0
  unfolding apply_replica
  apply_replica-Returns replica pool id w =
      Returns-bind (load k) _ (w, new_replica k _) (load-Returns (w, new_replica k _))
        λ _ s1 _. Returns-bind (persist k pool) _ _ (persist-Returns k replica pool _) λ _ _ _. tt
