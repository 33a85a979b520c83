-- ===== src/Tests/Checkouts.antt =====
-- Runs of a checkout from the pool of the other tests.
use pvpool.Prelude.{ℕ, ◌≡◌, refl, true, none, some, List, [], ◌∷◌, String}
use pvpool.Exec.{ok, Returns}
use pvpool.Api.Core.{Pvc, pending}
use pvpool.Api.Resources.{Checkout, new_checkout}
use pvpool.Api.State.{PoolReplica, CheckoutState}
use pvpool.Replica
use pvpool.Replica.Phase.{is_stale, is_available}
use pvpool.PoolState.Load
use pvpool.CheckoutState.Pairs.{final, new_checkout_state, or_else}
use pvpool.CheckoutState.Load.{load, load_pair, load_from_pool, pool_key, pick}
use pvpool.CheckoutState.Configure.{
  configure_checkout_state, configure_from, copy_volume, point_at, lock_volume, remember_policy,
}
use pvpool.CheckoutState.Status.{configure_checkout}
use pvpool.CheckoutState.StatusLaws.{configure_checkout_idem}
use pvpool.Reconcile.Checkouts.{reconcile_state, body}
use pvpool.Reconcile.Settled.{IsSettled, reconcile_state-IsSettled}
use pvpool.CheckoutState.Persist.{persist, persist_pair}
use pvpool.CheckoutState.Loading.{IsReady, load-IsReady}
use pvpool.CheckoutState.Retry.{configure_checkout_state_idem}
use pvpool.CheckoutState.Binding.{IsBinding, configure_checkout_state-IsBinding}
use pvpool.CheckoutState.Safety.{persist_after_load-Returns}
use pvpool.CheckoutState.Ownership.{Taken, load_pair-Taken}
use pvpool.CheckoutState.Oldest.{TakesOldest, pick-TakesOldest}
use pvpool.Tests.Cluster.{Cluster, toy, blank_pv}
use pvpool.Tests.Laws.{toy-PersistLaws, toy-CopyLaws, toy-AnnotateLaws, toy-SortLaws}
use pvpool.Tests.Pools.{key_of, replica_of, cluster, claim_a, volume_a}

abbrev pub request : Checkout
request = record (new_checkout (key_of "checkout")) {
  spec = record {
    pool_ref = record { namespace = ""; name = "pool" };
    claim_name = "data";
    access_modes = "ReadWriteOnce" ∷ [];
  };
}

abbrev start : Cluster × CheckoutState
start = (cluster, new_checkout_state toy request)

-- Load takes the volume of the pool's one available claim.
takes_volume : (load toy start).1.1.locked_volume ≡ some volume_a
unfolding load load_pair load_from_pool pool_key pick Load.load Load.load_keys Load.load_key
    Load.place Replica.load Replica.new_replica Replica.created_before is_stale is_available
    new_checkout_state or_else
takes_volume = refl

load_run : load toy start ≡ (ok true, (load toy start).1)
unfolding load load_pair load_from_pool pool_key pick Load.load Load.load_keys Load.load_key
    Load.place Replica.load Replica.new_replica Replica.created_before is_stale is_available
    new_checkout_state or_else
load_run = refl

persist_after_load-Returns_example :
    Returns
      (persist toy ((load toy start).1.0, configure_checkout_state toy (load toy start).1.1)).0
persist_after_load-Returns_example =
    persist_after_load-Returns toy toy-PersistLaws start (load toy start).1 toy-AnnotateLaws
      load_run

load-IsReady_example : IsReady (load toy start).1.1
load-IsReady_example = load-IsReady toy start (load toy start).1 load_run

abbrev with_volume : CheckoutState
with_volume = record (new_checkout_state toy request) { locked_volume = some volume_a }

configure_checkout_state-IsBinding_example :
    IsBinding toy with_volume volume_a (configure_checkout_state toy with_volume)
configure_checkout_state-IsBinding_example =
    configure_checkout_state-IsBinding toy toy-AnnotateLaws with_volume volume_a
      (unfold new_checkout_state in refl) refl

-- A replica whose claim was created at a time.
abbrev created_at : String → ℕ → PoolReplica
created_at name t =
    let r = replica_of name pending in
    record r {
      claim = record (r.claim) { metadata = record (r.claim.metadata) { created = t } };
      volume = some (blank_pv name);
    }

abbrev candidates : List PoolReplica
candidates = created_at "young" 9 ∷ created_at "old" 2 ∷ created_at "middle" 5 ∷ []

pick-TakesOldest_example : TakesOldest candidates (pick toy (key_of "pool") candidates start).1.1
pick-TakesOldest_example =
    pick-TakesOldest toy toy-SortLaws (key_of "pool") candidates start
      (pick toy (key_of "pool") candidates start).1 true
      (unfold pick Replica.created_before in refl)

reconcile_state-IsSettled_example : IsSettled toy start (reconcile_state toy start).1
unfolding reconcile_state body load load_pair load_from_pool pool_key pick Load.load Load.load_keys
    Load.load_key Load.place Replica.load Replica.new_replica Replica.created_before is_stale
    is_available new_checkout_state or_else configure_checkout_state configure_from copy_volume
    point_at lock_volume remember_policy persist persist_pair
reconcile_state-IsSettled_example =
    reconcile_state-IsSettled toy start (reconcile_state toy start).1 refl

configure_checkout_idem_example :
    configure_checkout 12 (record with_volume { checkout = configure_checkout 9 with_volume })
    ≡ configure_checkout 9 with_volume
configure_checkout_idem_example = configure_checkout_idem 9 12 with_volume

-- The claim `data` is there, bound to a volume, and the checkout controls it.
abbrev owned_claim : Pvc
owned_claim = record claim_a {
  key = key_of "data";
  metadata = record (claim_a.metadata) { owners = record { uid = "me"; controller = true } ∷ [] };
}

abbrev resumed : Cluster × CheckoutState
resumed = (
  record cluster { claims = owned_claim ∷ [] },
  new_checkout_state toy (record request { metadata = record (request.metadata) { uid = "me" } }),
)

load_pair-Taken_example : Taken toy final none (load_pair toy final resumed).1.1
unfolding new_checkout_state or_else load_pair
load_pair-Taken_example = load_pair-Taken toy final resumed (load_pair toy final resumed).1 refl

-- The volume is taken over.
adopts : (load_pair toy final resumed).1.1.volume ≡ some volume_a
unfolding new_checkout_state or_else load_pair
adopts = refl

configure_checkout_state_idem_example :
    configure_checkout_state toy (configure_checkout_state toy with_volume)
    ≡ configure_checkout_state toy with_volume
configure_checkout_state_idem_example =
    configure_checkout_state_idem toy toy-AnnotateLaws toy-CopyLaws with_volume
