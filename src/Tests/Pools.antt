-- ===== src/Tests/Pools.antt =====
-- Runs of pools with initializing, available and stale replicas, of pkg/controller/app/pool_state.go.
use pvpool.Prelude.{◌≡◌, refl, true, none, some, [], ◌∷◌, arith, String, pos}
use pvpool.Exec.{ok, err}
use pvpool.Api.Core.{Key, empty_meta, ObjectReference, ClaimPhase, bound, pending, Pvc, Pv}
use pvpool.Api.Resources.{new_pool}
use pvpool.Api.State.{PoolReplica, PoolState, new_pool_state}
use pvpool.Tests.Cluster.{Cluster, toy, blank_pvc, blank_pv, blank_job}
use pvpool.Tests.Laws.{toy-RandLaws}
use pvpool.PoolState.Slots.{delete, drain, delete_popped}
use pvpool.PoolState.Load.{load}
use pvpool.PoolState.Scale.{requested, persist_scale, scale_down}
use pvpool.PoolState.Persist.{persist_stale, stale_loop, report_failure}
use pvpool.PoolState.Deletion.{delete_empties}
use pvpool.PoolState.Classes.{IsClassified, load-IsClassified}
use pvpool.PoolState.Scaling.{Scaled, persist_scale-Scaled}
use pvpool.PoolState.Convergence.{Approaches, active, persist_scale-Approaches}
use pvpool.PoolState.Stale.{IsCleared}
use pvpool.PoolState.Retired.{RetiresAll, persist_stale-RetiresAll}
use pvpool.Replica
use pvpool.Replica.Phase.{is_available}
use pvpool.Kube.{Kube}
use pvpool.Kube.Laws.{RandLaws}
use pvpool.PoolState.Configure.{configure_pool}
use pvpool.PoolState.Persist.{persist_initializing, initializing_from}
use pvpool.PoolState.Rounds.{done, round, rounds-settle}
use pvpool.PoolState.Converged.{IsConverging, persist-IsConverging}
use pvpool.PoolState.Persist.{persist, persist_available, available_from}
use pvpool.PoolState.Initializing.{IsPromoted}
use pvpool.PoolState.Promotion.{PromotesAll, persist_initializing-PromotesAll}
use pvpool.PoolState.ScaleErrors.{persist_scale-active}
use pvpool.PoolState.StatusLaws.{configure_pool_idem}

abbrev pub key_of : String → Key
key_of name = record { namespace = "ns"; name = name }

abbrev pub replica_of : String → ClaimPhase → PoolReplica
replica_of name phase = record {
  claim = record (blank_pvc (key_of name)) { phase = phase };
  volume = none;
  init_job = blank_job (key_of name);
}

-- A pool that asks for one replica, and has three.
abbrev crowded : PoolState
crowded = record (new_pool_state (new_pool (key_of "pool"))) {
  initializing = replica_of "a" pending ∷ replica_of "b" pending ∷ [];
  available = replica_of "c" bound ∷ [];
  stale = replica_of "failed" pending ∷ replica_of "e" pending ∷ [];
}

-- The volume of the claim `a`, under its uid.
abbrev pub claim_a : Pvc
claim_a = record (blank_pvc (key_of "a")) {
  metadata = record empty_meta {
    uid = "uid-a";
    annotations = ("pvpool.puppet.com/replica.phase", "Available") ∷ [];
  };
  spec = record ((blank_pvc (key_of "a")).spec) { volume_name = "vol-a" };
  phase = bound;
}

abbrev pub reference_to_a : ObjectReference
reference_to_a = record {
  api_version = "v1";
  kind = "PersistentVolumeClaim";
  namespace = "ns";
  name = "a";
  uid = "uid-a";
}

abbrev pub volume_a : Pv
volume_a = record (blank_pv "vol-a") {
  spec = record ((blank_pv "vol-a").spec) { claim_ref = some reference_to_a };
}

abbrev pub cluster : Cluster
cluster = record {
  claims = claim_a ∷ blank_pvc (key_of "b") ∷ blank_pvc (key_of "failed") ∷ [];
  volumes = volume_a ∷ [];
  pools = new_pool (key_of "pool") ∷ [];
  events = [];
}

abbrev start : Cluster × PoolState
start = (cluster, crowded)

delete_empties_example :
    (delete toy start).1.1 ≡ record crowded { initializing = []; available = []; stale = [] }
delete_empties_example =
    delete_empties toy toy-RandLaws start (delete toy start).1 true
      (unfold delete drain delete_popped Replica.pop Replica.delete in refl)

load-IsClassified_example :
    IsClassified toy (load toy (cluster, new_pool_state (new_pool (key_of "pool")))).1.1
load-IsClassified_example =
    load-IsClassified toy (cluster, new_pool_state (new_pool (key_of "pool")))
      (record { of_initializing = tt; of_available = tt; of_stale = tt })

persist_scale-Scaled_example : Scaled toy crowded (persist_scale toy start).1.1
persist_scale-Scaled_example =
    persist_scale-Scaled toy toy-RandLaws start (persist_scale toy start).1
      (unfold persist_scale scale_down delete_popped Replica.pop Replica.delete in refl)

persist_scale-Approaches_example : Approaches 1 3 (active (persist_scale toy start).1.1)
persist_scale-Approaches_example =
    persist_scale-Approaches toy 1 start (persist_scale toy start).1 toy-RandLaws (omega arith) refl
      (unfold persist_scale scale_down delete_popped Replica.pop Replica.delete in refl)

persist_stale-RetiresAll_example :
    RetiresAll toy crowded.stale (toy.new_rng start.0).1 (persist_stale toy start).1.0
    × IsCleared crowded (persist_stale toy start).1.1
persist_stale-RetiresAll_example =
    persist_stale-RetiresAll toy toy-RandLaws start (persist_stale toy start).1 (
      unfold persist_stale stale_loop report_failure delete_popped Replica.pop Replica.delete in
      refl)

-- One of two initializing replicas has become available.
abbrev halfway : PoolState
halfway = record (new_pool_state (new_pool (key_of "pool"))) {
  initializing =
      record (replica_of "a" bound) { claim = claim_a; volume = some volume_a }
      ∷ replica_of "b" pending
      ∷ [];
}

persist_initializing-PromotesAll_example :
    PromotesAll toy [] halfway.initializing halfway cluster
      (persist_initializing toy (cluster, halfway)).1
    × IsPromoted halfway (persist_initializing toy (cluster, halfway)).1.1
persist_initializing-PromotesAll_example =
    persist_initializing-PromotesAll toy (cluster, halfway)
      (persist_initializing toy (cluster, halfway)).1
      (unfold persist_initializing initializing_from Replica.persist is_available in refl)

-- The same small API server, with deletions that fail.
abbrev stuck : Kube
stuck = record toy { delete_pvc = λ _ s. (err "stuck", s) }

stuck-RandLaws : RandLaws stuck
stuck-RandLaws = record { uint64_n-Draws = toy-RandLaws.uint64_n-Draws }

persist_scale-active_example : active (persist_scale stuck start).1.1 ≡ active crowded
persist_scale-active_example =
    persist_scale-active stuck stuck-RandLaws start (persist_scale stuck start).1 "stuck"
      (unfold persist_scale scale_down delete_popped Replica.pop Replica.delete in refl)

configure_pool_idem_example :
    configure_pool 12 (record crowded { pool = configure_pool 9 crowded })
    ≡ configure_pool 9 crowded
configure_pool_idem_example = configure_pool_idem 9 12 crowded

persist-IsConverging_example : IsConverging 1 crowded (persist toy start).1.1
unfolding persist persist_initializing initializing_from persist_available available_from
    persist_scale scale_down persist_stale stale_loop report_failure delete_popped Replica.pop
    Replica.delete Replica.persist is_available
persist-IsConverging_example =
    persist-IsConverging toy 1 start (persist toy start).1 toy-RandLaws (omega arith) refl refl

-- Two rounds, the second from the state that the first has left.
abbrev once : Cluster × PoolState
once = (persist toy start).1

abbrev twice : Cluster × PoolState
twice = (persist toy once).1

second_round : persist toy once ≡ (ok tt, twice)
unfolding persist persist_initializing initializing_from persist_available available_from
    persist_scale scale_down persist_stale stale_loop report_failure delete_popped Replica.pop
    Replica.delete Replica.persist is_available
second_round = refl

first_round : persist toy start ≡ (ok tt, once)
unfolding persist persist_initializing initializing_from persist_available available_from
    persist_scale scale_down persist_stale stale_loop report_failure delete_popped Replica.pop
    Replica.delete Replica.persist is_available
first_round = refl

same_request : requested once.1.pool ≡ pos 1
unfolding persist persist_initializing initializing_from persist_available available_from
    persist_scale scale_down persist_stale stale_loop report_failure delete_popped Replica.pop
    Replica.delete Replica.persist is_available
same_request = refl

rounds-settle_example : active twice.1 ≡ 1
rounds-settle_example =
    rounds-settle toy 1 toy-RandLaws 2 start twice
      (round {s = start} {t = once} {u = once} refl first_round refl
        (round {s = once} {t = twice} {u = twice} same_request second_round refl done))
      (omega arith) (omega arith) (omega arith)
