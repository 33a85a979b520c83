-- ===== src/CheckoutState/TakenPick.antt =====
-- loadFromPool and Load of CheckoutState (pkg/controller/app/checkout_state.go) while another
-- checkout has locked a volume.
use mathlib.Core.List.{Perm, mem-cons_self}
use mathlib.Core.List.Perm
use pvpool.Prelude.{
  ◌≡◌, String, Bool, true, false, ◌||◌, some, List, [], ◌∷◌, All, is_some, get_elem?, if◌then◌else◌,
  Bool-cases, Option-cases, inl, inr,
}
use pvpool.Prelude.Members.{All-mem}
use pvpool.Exec.{Outcome, ok, err, panic, timeout, pure, modify, deref, continue, ◌>>=◌, ◌>>◌}
use pvpool.Exec.Rules.{Gives, Gives-bind}
use pvpool.Api.Core.{Key, Pvc, Pv}
use pvpool.Api.Resources.{Pool, new_pool}
use pvpool.Api.State.{PoolReplica, PoolState, CheckoutState, new_pool_state}
use pvpool.Kube.{Kube}
use pvpool.Kube.Laws.{SortLaws}
use pvpool.Kube.Frame.{Frame, ReadLaws, ClaimLaws, CheckoutLaws}
use pvpool.Kube.Store.{Store}
use pvpool.Kube.Lock.{Uids, lock_frame, LockLaws}
use pvpool.Replica.{created_before}
use pvpool.Replica.Phase.{is_bound}
use pvpool.PoolState.Load
use pvpool.PoolState.Taken.{Without, NoneHas, load-NoneHas}
use pvpool.CheckoutState.Pairs.{locked, final, put_volume, Method}
use pvpool.CheckoutState.Load.{
  is_controller, refers_to, load_pair, pick, load_from, with_pool, load_from_pool, load, pool_key,
}
use pvpool.CheckoutState.Taken.{Away, Away-put_volume, load_pair-Away}

module _ (k : Kube) (st : Store k) (ids : Uids k) (owner : String) (c : Pvc) (v : Pv) where
  abbrev lf : Frame k
  lf = lock_frame k st ids owner c v

  abbrev Apart : k.World × CheckoutState → Type 0
  Apart = Away k st ids owner c v

  Without-prop : (r : PoolReplica) → IsProp (Without k st ids owner c v r)
  Without-prop r = hlevel

  module _ (lock : LockLaws k st ids owner c v) (sort : SortLaws k) (reads : ReadLaws k lf)
      (claims : ClaimLaws k lf) (checkouts : CheckoutLaws k lf)
      (controls : is_controller owner (k.controller_of c.metadata) ≡ true)
      (refers : refers_to c.metadata.uid v.spec.claim_ref ≡ true) where
    abbrev Lost : k.World × CheckoutState → Type 0
    Lost _ = Unit {0}

    abbrev take_first : List PoolReplica → Method k Bool
    take_first sorted = deref (get_elem? sorted 0) >>= λ x.
        deref x.volume >>= λ u. modify (λ t. (t.0, put_volume locked (some u) t.1)) >> pure true

    pick-Away :
        (key : Key) (rs : List PoolReplica) (s : k.World × CheckoutState)
        → All (Without k st ids owner c v) rs
        → Apart s
        → Gives (λ _. Apart) Lost (pick k key rs s)
    unfolding pick
    pick-Away key [] s all h = tt
    pick-Away key (r ∷ rs) s all h =
        first (k.sort_replicas created_before (r ∷ rs)) (sort.sort-perm created_before (r ∷ rs))
      where
        first :
            (sorted : List PoolReplica)
            → Perm sorted (r ∷ rs)
            → Gives (λ _. Apart) Lost (take_first sorted s)
        first [] perm = tt
        first (x ∷ l) perm = elim (Option-cases x.volume) [
          | inl missing ↦ rw missing tt
          | inr (u, e) ↦ rw e (
              Away-put_volume k st ids owner c v locked u s.0 s h.0
                (All-mem (Without k st ids owner c v) Without-prop (r ∷ rs) all x
                  ((Perm.mem_iff perm).0 mem-cons_self) u e)
                h)
        ]

    load_from-Away :
        (pool : Pool) (s : k.World × CheckoutState)
        → ¬ (pool.metadata.uid ≡ owner)
        → Apart s
        → Gives (λ _. Apart) Lost (load_from k pool s)
    load_from-Away pool s apart h = go (Load.load k (s.0, new_pool_state pool)) (
        load-NoneHas k st ids owner c v lock reads claims controls refers (s.0, new_pool_state pool)
          h.0 apart)
      where
        go :
            (d : Outcome k.Error Bool × (k.World × PoolState))
            → Gives (λ _. NoneHas k st ids owner c v) (λ _. Unit {0}) d
            → Gives
                (λ _. Apart)
                Lost
                (continue {S = k.World × CheckoutState} d.0
                  (λ found. if found then pick k pool.key d.1.1.available else pure false)
                  (d.1.0, s.1))
        go (ok true, t) g = pick-Away pool.key t.1.available (t.0, s.1) g.1 (g.0, h.1, h.2)
        go (ok false, t) g = (g.0, h.1, h.2)
        go (err e, t) g = tt
        go (panic, t) g = tt
        go (timeout, t) g = tt

    load_from_pool-Away :
        (s : k.World × CheckoutState) → Apart s → Gives (λ _. Apart) Lost (load_from_pool k s)
    unfolding load_from_pool
    load_from_pool-Away s h =
        go (k.require_pool (s.0, new_pool key)) (checkouts.require_pool-Gives key s.0 h.0)
      where
        key : Key
        key = pool_key s.1.checkout

        go :
            (d : Outcome k.Error Bool × (k.World × Pool))
            → Gives (λ _ t. lf.Safe t.0 × lf.IsPool t.1.metadata.uid) (λ t. lf.Safe t.0) d
            → Gives (λ _. Apart) Lost (with_pool k key d.0 d.1.1 (d.1.0, s.1))
        go (ok b, t) g = load_from-Away t.1 (t.0, s.1) g.1 (g.0, h.1, h.2)
        go (err e, t) g = tt
        go (panic, t) g = tt
        go (timeout, t) g = tt

    -- A checkout's Load that succeeds chooses other volumes.
    pub load-Away : (s : k.World × CheckoutState) → Apart s → Gives (λ _. Apart) Lost (load k s)
    unfolding load
    load-Away s h =
        Gives-bind (λ _. Apart) (λ _. Apart) Lost (load_pair k locked) _ s
          (load_pair-Away k st ids owner c v lock reads claims controls refers locked s h)
          λ _ t ht.
            Gives-bind (λ _. Apart) (λ _. Apart) Lost (load_pair k final) _ t
              (load_pair-Away k st ids owner c v lock reads claims controls refers final t ht)
              λ _ u hu. elim (Bool-cases (is_bound u.1.claim.phase || is_some u.1.locked_volume)) [
                | inl ready ↦ rw ready hu
                | inr empty ↦ rw empty (load_from_pool-Away u hu)
              ]
