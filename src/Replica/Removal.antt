-- ===== src/Replica/Removal.antt =====
-- What Pop takes out of a list of replicas.
use mathlib.Core.List.{Perm}
use native.Mathlib.Numerals.{sub-one}
use pvpool.Prelude.{ℕ, suc, ◌≡◌, refl, sym, ap, Option, none, some, List, [], ◌∷◌, arith, length}
use pvpool.Prelude.Removal.{length-swap_remove, Removes-lem}
use pvpool.Exec.{Outcome, ok, err, panic, timeout}
use pvpool.Api.State.{PoolReplica}
use pvpool.Kube.{Kube}
use pvpool.Kube.Laws.{Draws, RandLaws}
use pvpool.Replica.{pop}

-- What became of the list `rs`: a replica was taken out of it, or it was empty, or the draw failed
-- and it is as before.
abbrev pub Popped :
    {E : Type 0} → List PoolReplica → Outcome E (Option PoolReplica) → List PoolReplica → Type 0
Popped rs (ok none) rs' = (rs ≡ []) × (rs' ≡ [])
Popped rs (ok (some r)) rs' = Perm rs (r ∷ rs') × (length rs ≡ suc (length rs'))
Popped rs (err e) rs' = rs' ≡ rs
Popped rs panic rs' = ⊥
Popped rs timeout rs' = ⊥

module _ (k : Kube) (laws : RandLaws k) where
  -- Pop takes exactly one replica out of a list that is not empty, whatever number is drawn, finds
  -- none only in an empty list, leaves the list alone if the draw fails, and never panics.
  pub pop-Popped :
      (rng : k.Rng) (w : k.World) (rs : List PoolReplica)
      → let (res, s) = pop k rng (w, rs) in Popped rs res s.1
  unfolding pop
  pop-Popped rng w [] = (refl, refl)
  pop-Popped rng w (r ∷ rs) =
      go (k.uint64_n rng (length (r ∷ rs)) w) refl
        (laws.uint64_n-Draws rng (length (r ∷ rs)) w (omega arith))
    where
      go :
          (d : Outcome k.Error ℕ × k.World)
          → k.uint64_n rng (length (r ∷ rs)) w ≡ d
          → Draws (length (r ∷ rs)) (k.uint64_n rng (length (r ∷ rs)) w).0
          → let (res, s) = pop k rng (w, r ∷ rs) in Popped (r ∷ rs) res s.1
      go (ok i, w') e h =
          let (x, last, f, g, p) = Removes-lem r rs i (rw e at h) in
          rw (e, f, sub-one, g) (p, sym (ap suc (length-swap_remove r rs i last)))
      go (err x, w') e h = rw (e, pop) refl
      go (panic, w') e h = absurd (rw e at h)
      go (timeout, w') e h = absurd (rw e at h)
