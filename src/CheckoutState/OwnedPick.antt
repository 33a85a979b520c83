-- ===== src/CheckoutState/OwnedPick.antt =====
-- Which claims a checkout has after loadFromPool, Load and ConfigureCheckoutState
-- (pkg/controller/app/checkout_state.go).
use pvpool.Prelude.{
  ◌≡◌, refl, Bool, true, false, Option, none, some, List, [], ◌∷◌, ◌||◌, is_some, get_elem?,
  if◌then◌else◌, Bool-cases, Option-cases, inl, inr,
}
use pvpool.Exec.{Outcome, ok, err, panic, timeout, pure}
use pvpool.Exec.Rules.{Gives, Gives-bind, Gives-imp, Gives-always, Keeps-continue}
use pvpool.Api.Core.{Key, Pv}
use pvpool.Api.Resources.{Pool, new_pool}
use pvpool.Api.State.{PoolReplica, CheckoutState, new_pool_state}
use pvpool.Kube.{Kube}
use pvpool.Kube.Frame.{Frame, PoolHeld, ReadLaws, ClaimLaws, PoolLaws, CheckoutLaws}
use pvpool.Replica.{created_before}
use pvpool.Replica.Phase.{is_bound}
use pvpool.PoolState.Load
use pvpool.PoolState.OwnedLoad
use pvpool.CheckoutState.Pairs.{Pair, locked, final}
use pvpool.CheckoutState.Load.{
  pick, load_from, with_pool, load_from_pool, load, load_pair, pool_key,
}
use pvpool.CheckoutState.Configure.{configure_checkout_state, configure_locked, configure_from}
use pvpool.CheckoutState.OwnedLoad.{
  Holds, Mine, SafeHere, Holds-put_volume, Holds-world, load_pair-Mine,
}

module _ (k : Kube) (f : Frame k) where
  -- A safe world and a checkout whose two claims may be written.
  abbrev pub BothMine : k.World × CheckoutState → Type 0
  BothMine s = Holds k f final (Mine k f) (Mine k f) s

  swap : (s : k.World × CheckoutState) → Holds k f locked (Mine k f) (Mine k f) s → BothMine s
  swap s h = record { safe = h.safe; is_checkout = h.is_checkout; this = h.that; that = h.this }

  pub of_pair :
      (p : Pair) (s : k.World × CheckoutState) → Holds k f p (Mine k f) (Mine k f) s → BothMine s
  of_pair locked s h = swap s h
  of_pair final s h = h

  pub to_pair :
      (p : Pair) (s : k.World × CheckoutState) → BothMine s → Holds k f p (Mine k f) (Mine k f) s
  to_pair locked s h = record {
    safe = h.safe;
    is_checkout = h.is_checkout;
    this = h.that;
    that = h.this;
  }
  to_pair final s h = h

  -- Conditions do not matter.
  pub BothMine-cond :
      (s : k.World × CheckoutState) (w : k.World) (cs : CheckoutState)
      → f.Safe w
      → cs.checkout ≡ s.1.checkout
      → cs.claim ≡ s.1.claim
      → cs.locked_claim ≡ s.1.locked_claim
      → BothMine s
      → BothMine (w, cs)
  BothMine-cond s w cs safe a b c h = record {
    safe = safe;
    is_checkout = rw a h.is_checkout;
    this = rw b h.this;
    that = rw c h.that;
  }

  configure_locked-BothMine :
      (o : Option Pv) (s : k.World × CheckoutState)
      → BothMine s
      → BothMine (s.0, configure_locked k o s.1)
  unfolding configure_from
  configure_locked-BothMine none s h = h
  configure_locked-BothMine (some lv) s h = record {
    safe = h.safe;
    is_checkout = h.is_checkout;
    this = h.this;
    that = h.that;
  }

  pub configure_checkout_state-BothMine :
      (s : k.World × CheckoutState) → BothMine s → BothMine (s.0, configure_checkout_state k s.1)
  unfolding configure_checkout_state
  configure_checkout_state-BothMine s h = elim (Bool-cases (is_bound s.1.claim.phase)) [
    | inl bound ↦ rw bound h
    | inr free ↦ rw free (configure_locked-BothMine s.1.locked_volume s h)
  ]

module _ (k : Kube) (f : Frame k) (reads : ReadLaws k f) (claims : ClaimLaws k f)
    (pools : PoolLaws k f) (checkouts : CheckoutLaws k f) where
  pick-BothMine :
      (key : Key) (rs : List PoolReplica) (s : k.World × CheckoutState)
      → BothMine k f s
      → BothMine k f (pick k key rs s).1
  unfolding pick
  pick-BothMine key [] s h =
      BothMine-cond k f s _ _ (reads.record_event-Safe _ s.0 h.safe) refl refl refl h
  pick-BothMine key (r ∷ rs) s h =
      elim (Option-cases (get_elem? (k.sort_replicas created_before (r ∷ rs)) 0)) [
        | inl nothing ↦ rw nothing h
        | inr (first, e) ↦ elim (Option-cases first.volume) [
          | inl missing ↦ rw (e, missing) h
          | inr (v, e') ↦
              rw (e, e')
                (Holds-put_volume k f final locked (Mine k f) (Mine k f) s s.0 (some v) h.safe h)
        ]
      ]

  load_from-BothMine :
      (pool : Pool) (s : k.World × CheckoutState)
      → f.IsPool pool.metadata.uid
      → BothMine k f s
      → BothMine k f (load_from k pool s).1
  load_from-BothMine pool s is h =
      let d = Load.load k (s.0, new_pool_state pool) in
      let safe : PoolHeld k f d.1 =
        OwnedLoad.load-PoolHeld k f reads claims pools (s.0, new_pool_state pool)
          (h.safe, record { is_pool = is; initializing = tt; available = tt; stale = tt }) in
      Keeps-continue {S = k.World × CheckoutState} (BothMine k f) d.0
        (λ found. if found then pick k pool.key d.1.1.available else pure false) (d.1.0, s.1)
        (Holds-world k f final (Mine k f) (Mine k f) s d.1.0 safe.0 h)
        elim [
          | true ↦
              pick-BothMine pool.key d.1.1.available (d.1.0, s.1)
                (Holds-world k f final (Mine k f) (Mine k f) s d.1.0 safe.0 h)
          | false ↦ Holds-world k f final (Mine k f) (Mine k f) s d.1.0 safe.0 h
        ]

  load_from_pool-BothMine :
      (s : k.World × CheckoutState) → BothMine k f s → BothMine k f (load_from_pool k s).1
  unfolding load_from_pool
  load_from_pool-BothMine s h =
      go (k.require_pool (s.0, new_pool key)) (checkouts.require_pool-Gives key s.0 h.safe)
    where
      key : Key
      key = pool_key s.1.checkout

      go :
          (d : Outcome k.Error Bool × (k.World × Pool))
          → Gives (λ _ t. f.Safe t.0 × f.IsPool t.1.metadata.uid) (λ t. f.Safe t.0) d
          → BothMine k f (with_pool k key d.0 d.1.1 (d.1.0, s.1)).1
      go (ok b, t) g =
          load_from-BothMine t.1 (t.0, s.1) g.1
            (Holds-world k f final (Mine k f) (Mine k f) s t.0 g.0 h)
      go (err e, t) g = BothMine-cond k f s _ _ (reads.record_event-Safe _ t.0 g) refl refl refl h
      go (panic, t) g = Holds-world k f final (Mine k f) (Mine k f) s t.0 g h
      go (timeout, t) g = Holds-world k f final (Mine k f) (Mine k f) s t.0 g h

  -- After a Load that succeeds both claims may be written.
  pub load-BothMine :
      (s : k.World × CheckoutState)
      → f.Safe s.0
      → f.IsCheckout s.1.checkout.metadata.uid
      → Gives (λ _. BothMine k f) (SafeHere k f) (load k s)
  unfolding load
  load-BothMine s safe is =
      Gives-bind (λ _. Holds k f locked (Mine k f) (λ _. Unit {0})) (λ _. BothMine k f)
        (SafeHere k f) (load_pair k locked) _ s
        (load_pair-Mine k f reads claims pools checkouts locked (λ _. Unit {0}) (λ _. Unit {0}) s
          (record { safe = safe; is_checkout = is; this = tt; that = tt }))
        λ _ t ht.
          Gives-bind (λ _. BothMine k f) (λ _. BothMine k f) (SafeHere k f) (load_pair k final) _ t
            (load_pair-Mine k f reads claims pools checkouts final (λ _. Unit {0}) (Mine k f) t
              (record { safe = ht.safe; is_checkout = ht.is_checkout; this = tt; that = ht.this }))
            λ _ u hu. elim (Bool-cases (is_bound u.1.claim.phase || is_some u.1.locked_volume)) [
              | inl ready ↦ rw ready hu
              | inr empty ↦ rw empty (
                  Gives-imp (λ _. BothMine k f) (λ _. BothMine k f) (BothMine k f) (SafeHere k f) _
                    (λ _ _ g. g) (λ _ g. g.safe)
                    (Gives-always (BothMine k f) (load_from_pool k u)
                      (load_from_pool-BothMine u hu)))
            ]
