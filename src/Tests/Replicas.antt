-- ===== src/Tests/Replicas.antt =====
-- Runs of single replicas, of their init jobs and of conditions.
use pvpool.Prelude.{◌≡◌, refl, ◌||◌, ◌&&◌, none, some, List, [], ◌∷◌, String, is_some}
use pvpool.Api.Core.{Volume, is_false, unset, pending}
use pvpool.Api.Resources.{new_pool, Condition}
use pvpool.Api.State.{PoolReplica}
use pvpool.Condition.{condition}
use pvpool.Replica
use pvpool.Replica.Phase.{is_stale, is_available}
use pvpool.Replica.Configure.{configure}
use pvpool.Replica.Readiness.{configure-is_available}
use pvpool.Replica.Removal.{Popped, pop-Popped}
use pvpool.Replica.Loading.{IsLoaded, load-IsLoaded}
use pvpool.Tests.Cluster.{toy, blank_pv}
use pvpool.Tests.Pools.{key_of, replica_of, cluster}
use pvpool.Tests.Laws.{toy-AnnotateLaws, toy-RandLaws}

abbrev three : List PoolReplica
three = replica_of "a" pending ∷ replica_of "b" pending ∷ replica_of "c" pending ∷ []

-- Its job has succeeded, and its volume is there.
abbrev done : PoolReplica
done = record (replica_of "succeeded" pending) { volume = some (blank_pv "vol") }

configure-is_available_example :
    is_available (configure toy (new_pool (key_of "pool")) done)
    ≡ (is_available done || (is_some done.volume && toy.succeeded done.init_job))
configure-is_available_example =
    configure-is_available toy toy-AnnotateLaws (new_pool (key_of "pool")) done
      (unfold is_stale in refl)

pop-Popped_example :
    let (res, s) = Replica.pop toy 1 (cluster, three) in Popped {E = toy.Error} three res s.1
pop-Popped_example = pop-Popped toy toy-RandLaws 1 cluster three

abbrev volume_of : String → Volume
volume_of name = record { name = name; claim_name = none; rest = [] }

abbrev before : Condition
before = record (condition is_false "NotReady" "No replica") { changed = 3 }

abbrev after : Condition
after = condition unset "Ready" "One replica"

load-IsLoaded_example :
    IsLoaded (Replica.load toy (cluster, Replica.new_replica toy (key_of "a"))).1.1
load-IsLoaded_example =
    load-IsLoaded toy (cluster, Replica.new_replica toy (key_of "a"))
      (Replica.load toy (cluster, Replica.new_replica toy (key_of "a"))).1
      (unfold Replica.load Replica.new_replica in refl)
