-- ===== src/PoolState/LoadEnds.antt =====
-- How Load of PoolState (pkg/controller/app/pool_state.go) ends.
use pvpool.Prelude.{true, false, List, [], ◌∷◌, if◌then◌else◌}
use pvpool.Exec.{Returns, modify, pure}
use pvpool.Exec.Rules.{Returns-bind, Returns-continue}
use pvpool.Api.Core.{Key}
use pvpool.Api.State.{PoolState}
use pvpool.Kube.{Kube}
use pvpool.Kube.Laws.{LoadLaws}
use pvpool.Replica
use pvpool.Replica.LoadEnds
use pvpool.PoolState.Slots.{call}
use pvpool.PoolState.Load.{place, load_key, load_keys, load}

module _ (k : Kube) (laws : LoadLaws k) where
  load_key-Returns : (key : Key) (s : k.World × PoolState) → Returns (load_key k key s).0
  unfolding load_key
  load_key-Returns key s =
      let d = Replica.load k (s.0, Replica.new_replica k key) in
      Returns-continue {S = k.World × PoolState} d.0
        (λ found. if found then modify (λ t. (t.0, place k d.1.1 t.1)) else pure tt) (d.1.0, s.1)
        (LoadEnds.load-Returns k laws (s.0, Replica.new_replica k key))
        elim [ true ↦ λ _. tt | false ↦ λ _. tt ]

  load_keys-Returns : (keys : List Key) (s : k.World × PoolState) → Returns (load_keys k keys s).0
  unfolding load_keys
  load_keys-Returns [] s = tt
  load_keys-Returns (key ∷ keys) s =
      Returns-bind (load_key k key) (λ _. load_keys k keys) s (load_key-Returns key s)
        λ _ t _. load_keys-Returns keys t

  pub load-Returns : (s : k.World × PoolState) → Returns (load k s).0
  unfolding load
  load-Returns s =
      Returns-bind (λ t. (k.as_selector s.1.pool.spec.selector, t)) _ s
        (laws.as_selector-Returns s.1.pool.spec.selector)
        λ selector t _.
          Returns-bind (call k (k.list_pvcs s.1.pool.key.namespace selector)) _ t
            (laws.list_pvcs-Returns s.1.pool.key.namespace selector t.0)
            λ keys u _.
              Returns-bind (load_keys k keys) (λ _. pure true) _ (load_keys-Returns keys _)
                λ _ _ _. tt
