-- ===== src/PoolState/Convergence.antt =====
-- How persistScale (pkg/controller/app/pool_state.go) moves the number of replicas.
use pvpool.Prelude.{
  ℕ, suc, ◌+◌, ◌≤◌, ◌<◌, ◌≡◌, ap, ◌∙◌, true, false, [], ◌∷◌, arith, length, length-append, ltb, pos,
  to_int32-small,
}
use pvpool.Exec.{ok}
use pvpool.Api.State.{PoolReplica, PoolState}
use pvpool.Kube.{Kube}
use pvpool.Kube.Laws.{RandLaws}
use pvpool.PoolState.Slots.{Slot, initializing, available, stale, slot_of, push}
use pvpool.PoolState.Scale.{requested, settle, persist_scale}
use pvpool.PoolState.Scaling.{
  Scaled, grown, shrunk, kept, Shrunk, emptied, taken, first, second, persist_scale-Scaled,
}

-- The replicas that count towards the request.
abbrev pub active : PoolState → ℕ
active ps = length ps.available + length ps.initializing

active-push :
    (slot : Slot) (r : PoolReplica) (ps : PoolState)
    → (active ps ≤ active (push slot r ps)) × (active (push slot r ps) ≤ suc (active ps))
active-push initializing r ps = omega (arith, length-append ps.initializing (r ∷ []))
active-push available r ps = omega (arith, length-append ps.available (r ∷ []))
active-push stale r ps = omega arith

active-settle : (k : Kube) (ps : PoolState) → active (settle k ps) ≡ active ps
active-settle k ps = ground arith

-- What the number of active replicas becomes, with `q` requested.
pub data Approaches (q n n' : ℕ) : Type 0 where
  from_below : n < q → n ≤ n' → n' ≤ q → Approaches q n n'
  from_above : q < n → suc n' ≡ n → Approaches q n n'
  stays : n ≡ q → n' ≡ q → Approaches q n n'

active-Shrunk : {ps ps' : PoolState} → Shrunk ps ps' → 0 < active ps → suc (active ps') ≡ active ps
active-Shrunk {ps} {ps'} (emptied p q e) h = absurd (omega (arith, ap length p, ap length q))
active-Shrunk {ps} {ps'} (taken slot r rs first perm e p) h = rw (ap active p) (omega (arith, e))
active-Shrunk {ps} {ps'} (taken slot r rs (second z) perm e p) h =
    rw (ap active p) (omega (arith, e))

module _ (k : Kube) where
  Scaled-Approaches :
      (q : ℕ) {ps ps' : PoolState}
      → active ps < 2147483648
      → requested ps.pool ≡ pos q
      → Scaled k ps ps'
      → Approaches q (active ps) (active ps')
  Scaled-Approaches q {ps} {ps'} small req (grown r few e) =
      let t : ltb (active ps) q ≡ true = rw (to_int32-small (active ps) small, req) at few in
      let (grows, by_one) = active-push (slot_of k r) r ps in
      let below : active ps < q = ground arith in
      from_below below (omega (arith, ap active e, grows))
        (omega (arith, ap active e, by_one, below))
  Scaled-Approaches q {ps} {ps'} small req (shrunk many e) =
      let t : ltb q (active ps) ≡ true = rw (to_int32-small (active ps) small, req) at many in
      let above : q < active ps = ground arith in
      from_above above (active-Shrunk e (omega (arith, above)))
  Scaled-Approaches q {ps} {ps'} small req (kept enough exact e) =
      let t : ltb (active ps) q ≡ false = rw (to_int32-small (active ps) small, req) at enough in
      let u : ltb q (active ps) ≡ false = rw (to_int32-small (active ps) small, req) at exact in
      let same : active ps ≡ q = ground arith in
      stays same (ap active e ∙ active-settle k ps ∙ same)

  -- With q replicas requested and fewer than 2^31 of them active, a persistScale that succeeds
  -- never passes the request: from below it does not lose an active replica and ends at q at most,
  -- from above it loses exactly one, and at q it changes nothing in their number.
  pub persist_scale-Approaches :
      (q : ℕ) (s s' : k.World × PoolState)
      → RandLaws k
      → active s.1 < 2147483648
      → requested s.1.pool ≡ pos q
      → persist_scale k s ≡ (ok tt, s')
      → Approaches q (active s.1) (active s'.1)
  persist_scale-Approaches q s s' laws small req h =
      Scaled-Approaches q small req (persist_scale-Scaled k laws s s' h)
