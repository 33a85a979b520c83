-- ===== src/PoolState/PersistEnds.antt =====
-- How a whole Persist of a pool (pkg/controller/app/pool_state.go) ends.
use pvpool.Prelude.{List, [], ◌∷◌, ◌++◌}
use pvpool.Exec.{Returns, modify, ◌>>◌}
use pvpool.Exec.Rules.{Returns-bind, Returns-continue}
use pvpool.Api.Resources.{available}
use pvpool.Api.State.{PoolReplica, PoolState, set_pool_cond}
use pvpool.Kube.{Kube}
use pvpool.Kube.Laws.{RandLaws, DeleteLaws, ReplicaLaws, LoadLaws, ReconcileLaws}
use pvpool.Replica
use pvpool.Replica.Persisting
use pvpool.PoolState.Scale.{persist_scale}
use pvpool.PoolState.Persist.{
  minimum_available, available_from, persist_initializing, persist_available, persist_stale,
  persist,
}
use pvpool.PoolState.InitializingEnds.{persist_initializing-Returns}
use pvpool.PoolState.ScaleEnds.{persist_scale-Returns}
use pvpool.PoolState.StaleEnds.{persist_stale-Returns}

module _ (k : Kube) where
  available_from-Returns :
      ReplicaLaws k
      → (passed rs : List PoolReplica) (s : k.World × PoolState)
      → Returns (available_from k passed rs s).0
  unfolding available_from
  available_from-Returns laws passed [] s = tt
  available_from-Returns laws passed (r ∷ rs) s =
      let d = Replica.persist k s.1.pool (s.0, r) in
      Returns-continue {S = k.World × PoolState} d.0
        (λ _.
          modify
            (λ t. (t.0, record t.1 { conds = set_pool_cond available minimum_available t.1.conds }))
          >> available_from k (passed ++ d.1.1 ∷ []) rs)
        (d.1.0, record s.1 { available = passed ++ d.1.1 ∷ rs })
        (Persisting.persist-Returns k laws s.1.pool (s.0, r))
        λ _ _. available_from-Returns laws (passed ++ d.1.1 ∷ []) rs _

  module _ (rand : RandLaws k) (deletes : DeleteLaws k) (replica : ReplicaLaws k)
      (loads : LoadLaws k) (calls : ReconcileLaws k) where
    pub persist-Returns : (s : k.World × PoolState) → Returns (persist k s).0
    unfolding persist persist_available
    persist-Returns s =
        Returns-bind (persist_initializing k) _ s (persist_initializing-Returns k replica s)
          λ _ s1 _.
            Returns-bind (persist_available k) _ s1
              (available_from-Returns replica [] s1.1.available s1)
              λ _ s2 _.
                Returns-bind (persist_scale k) (λ _. persist_stale k) s2
                  (persist_scale-Returns k rand deletes replica loads calls s2)
                  λ _ s3 _. persist_stale-Returns k rand deletes s3
