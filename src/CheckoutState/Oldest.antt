-- ===== src/CheckoutState/Oldest.antt =====
-- Which of the available replicas a checkout takes (loadFromPool).
use mathlib.Core.List.{Mem, Perm, mem-cons_self}
use mathlib.Core.List.Perm
use pvpool.Prelude.{
  ◌≤◌, ◌≡◌, sym, ap, Bool, true, false, some, List, [], ◌∷◌, arith, get_elem?, All,
}
use pvpool.Prelude.Members.{All-mem, All-of_mem}
use pvpool.Exec.{Outcome, ok, deref, pure, modify, ◌>>=◌, ◌>>◌}
use pvpool.Exec.Rules.{>>=-eq-ok, deref-eq-ok}
use pvpool.Api.Core.{Key, Pv}
use pvpool.Api.State.{PoolReplica, CheckoutState}
use pvpool.Kube.{Kube}
use pvpool.Kube.Laws.{SortLaws, IsSorted}
use pvpool.Replica.{created_before}
use pvpool.CheckoutState.Pairs.{locked, put_volume}
use pvpool.CheckoutState.Load.{pick}

before_asymm : (a b : PoolReplica) → created_before a b ≡ true → created_before b a ≡ false
unfolding created_before
before_asymm a b h = ground arith

before_trans :
    (a b c : PoolReplica)
    → created_before b a ≡ false
    → created_before c b ≡ false
    → created_before c a ≡ false
unfolding created_before
before_trans a b c p q = ground arith

not_before_self : (a : PoolReplica) → created_before a a ≡ false
unfolding created_before
not_before_self a = ground arith

-- The first of a sorted list comes before all others.
first_least :
    (x : PoolReplica) (l : List PoolReplica)
    → IsSorted created_before (x ∷ l)
    → All (λ y. created_before y x ≡ false) l
first_least x [] h = tt
first_least x (y ∷ l) h = (h.0, weaken l (first_least y l h.1))
  where
    weaken :
        (m : List PoolReplica)
        → All (λ z. created_before z y ≡ false) m
        → All (λ z. created_before z x ≡ false) m
    weaken [] a = tt
    weaken (z ∷ m) a = (before_trans x y z h.0 a.0, weaken m a.1)

not_before_le :
    (x y : PoolReplica)
    → created_before y x ≡ false
    → x.claim.metadata.created ≤ y.claim.metadata.created
unfolding created_before
not_before_le x y h = ground arith

not_before_prop : (x y : PoolReplica) → IsProp (created_before y x ≡ false)
not_before_prop x y = hlevel

-- The volume that a checkout took is that of a replica of the list whose claim has the earliest
-- creation time.
pub record TakesOldest (rs : List PoolReplica) (cs : CheckoutState) : Type 0 where
  pub r : PoolReplica
  pub v : Pv
  pub is_there : Mem r rs
  pub is_oldest : All (λ x. r.claim.metadata.created ≤ x.claim.metadata.created) rs
  pub its_volume : r.volume ≡ some v
  pub is_locked : cs.locked_volume ≡ some v

module _ (k : Kube) (laws : SortLaws k) where
  abbrev Run : Type 0
  Run = Outcome k.Error Bool × (k.World × CheckoutState)

  abbrev take_first : List PoolReplica → k.World × CheckoutState → Run
  take_first sorted = deref (get_elem? sorted 0) >>= λ r.
      deref r.volume >>= λ v. modify (λ t. (t.0, put_volume locked (some v) t.1)) >> pure true

  first_TakesOldest :
      (rs sorted : List PoolReplica) (s s' : k.World × CheckoutState) (b : Bool)
      → Perm sorted rs
      → IsSorted created_before sorted
      → take_first sorted s ≡ (ok b, s')
      → TakesOldest rs s'.1
  first_TakesOldest rs [] s s' b p q h = absurd (cc)
  first_TakesOldest rs (r ∷ l) s s' b p q h =
      let (v, s1, e1, h1) = >>=-eq-ok (deref r.volume) _ s h in
      record {
        r = r;
        v = v;
        is_there = (Perm.mem_iff p).0 mem-cons_self;
        is_oldest =
            All-of_mem (λ x. r.claim.metadata.created ≤ x.claim.metadata.created) rs
              λ x m. not_before_le r x (
                All-mem (λ y. created_before y r ≡ false) (not_before_prop r) (r ∷ l)
                  (not_before_self r, first_least r l q) x ((Perm.mem_iff p).1 m));
        its_volume = deref-eq-ok r.volume s e1;
        is_locked = ap (λ (t : Run). t.1.1.locked_volume) (sym h1);
      }

  -- When a checkout takes a volume from a pool with available replicas, it is the volume of one of
  -- them whose claim was created no later than the claim of any other.
  pub pick-TakesOldest :
      (key : Key) (rs : List PoolReplica) (s s' : k.World × CheckoutState) (b : Bool)
      → pick k key rs s ≡ (ok b, s')
      → TakesOldest rs s'.1
  unfolding pick
  pick-TakesOldest key [] s s' b h = absurd (cc)
  pick-TakesOldest key (r ∷ rs) s s' b h =
      first_TakesOldest (r ∷ rs) (k.sort_replicas created_before (r ∷ rs)) s s' b
        (laws.sort-perm created_before (r ∷ rs))
        (laws.sort-IsSorted created_before (r ∷ rs) before_asymm before_trans) h
