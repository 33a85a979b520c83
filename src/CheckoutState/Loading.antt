-- ===== src/CheckoutState/Loading.antt =====
-- What Load of CheckoutState finds.
use pvpool.Prelude.{
  ◌≡◌, sym, ap, subst, Bool, true, false, ◌||◌, Option, none, some, List, [], ◌∷◌, arith, is_some,
  Bool-cases, inl, inr, if◌then◌else◌, get_elem?,
}
use pvpool.Exec.{Outcome, ok, err, panic, timeout, continue, deref, ◌>>=◌, ◌>>◌, modify, pure}
use pvpool.Exec.Rules.{>>=-eq-ok}
use pvpool.Api.Core.{Key, Pv}
use pvpool.Api.Resources.{Pool}
use pvpool.Api.State.{PoolReplica, PoolState, CheckoutState, new_pool_state}
use pvpool.Kube.{Kube}
use pvpool.Replica.{created_before}
use pvpool.Replica.Phase.{is_bound}
use pvpool.PoolState.Load
use pvpool.CheckoutState.Pairs.{locked, final, put_volume}
use pvpool.CheckoutState.Load.{
  pick, load_from_pool, load_pair, load, pool_key, load_from, with_pool,
}

-- Ready for Persist: the claim is bound, or there is a volume to lock.
abbrev pub IsReady : CheckoutState → Type 0
IsReady cs = (is_bound cs.claim.phase || is_some cs.locked_volume) ≡ true

module _ (k : Kube) where
  abbrev Run : Type 0
  Run = Outcome k.Error Bool × (k.World × CheckoutState)

  -- What holds of a load's result if it says that it succeeded.
  abbrev ReadyIfTrue : Run → Type 0
  ReadyIfTrue (ok true, s) = IsReady s.1
  ReadyIfTrue _ = Unit {0}

  locked-IsReady : (cs : CheckoutState) (v : Pv) → IsReady (put_volume locked (some v) cs)
  locked-IsReady cs v = ground arith

  take_volume :
      (o : Option Pv) (s : k.World × CheckoutState)
      → ReadyIfTrue
          ((deref o >>= λ v. modify (λ t. (t.0, put_volume locked (some v) t.1)) >> pure true) s)
  take_volume none s = tt
  take_volume (some v) s = locked-IsReady s.1 v

  take_first :
      (o : Option PoolReplica) (s : k.World × CheckoutState)
      → ReadyIfTrue (
          (deref o >>= λ r.
          deref r.volume >>= λ v. modify (λ t. (t.0, put_volume locked (some v) t.1)) >> pure true)
            s)
  take_first none s = tt
  take_first (some r) s = take_volume r.volume s

  pick-IsReady :
      (key : Key) (rs : List PoolReplica) (s : k.World × CheckoutState)
      → ReadyIfTrue (pick k key rs s)
  unfolding pick
  pick-IsReady key [] s = tt
  pick-IsReady key (r ∷ rs) s = take_first (get_elem? (k.sort_replicas created_before (r ∷ rs)) 0) s

  load_from-IsReady : (pool : Pool) (s : k.World × CheckoutState) → ReadyIfTrue (load_from k pool s)
  load_from-IsReady pool s = go (Load.load k (s.0, new_pool_state pool))
    where
      go :
          (d : Outcome k.Error Bool × (k.World × PoolState))
          → ReadyIfTrue (
              continue {S = k.World × CheckoutState} d.0
                (λ found. if found then pick k pool.key d.1.1.available else pure false)
                (d.1.0, s.1))
      go (ok true, t) = pick-IsReady pool.key t.1.available (t.0, s.1)
      go (ok false, t) = tt
      go (err e, t) = tt
      go (panic, t) = tt
      go (timeout, t) = tt

  with_pool-IsReady :
      (key : Key) (res : Outcome k.Error Bool) (pool : Pool) (s : k.World × CheckoutState)
      → ReadyIfTrue (with_pool k key res pool s)
  with_pool-IsReady key (ok _) pool s = load_from-IsReady pool s
  with_pool-IsReady key (err e) pool s = tt
  with_pool-IsReady key panic pool s = tt
  with_pool-IsReady key timeout pool s = tt

  load_from_pool-IsReady : (s : k.World × CheckoutState) → ReadyIfTrue (load_from_pool k s)
  unfolding load_from_pool
  load_from_pool-IsReady s = with_pool-IsReady (pool_key s.1.checkout) _ _ _

  -- When Load says that it succeeded, the claim is bound or there is a volume to lock.
  pub load-IsReady : (s s' : k.World × CheckoutState) → load k s ≡ (ok true, s') → IsReady s'.1
  unfolding load
  load-IsReady s s' h =
      let (_, s1, e1, h1) = >>=-eq-ok (load_pair k locked) _ s h in
      let (_, s2, e2, h2) = >>=-eq-ok (load_pair k final) _ s1 h1 in
      elim (Bool-cases (is_bound s2.1.claim.phase || is_some s2.1.locked_volume)) [
        | inl ready ↦ rw (ap (λ (q : Run). q.1.1) (sym (rw ready at h2))) ready
        | inr short ↦ subst ReadyIfTrue (rw short at h2) (load_from_pool-IsReady s2)
      ]
