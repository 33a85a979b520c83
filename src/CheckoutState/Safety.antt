-- ===== src/CheckoutState/Safety.antt =====
-- How Persist of CheckoutState ends once Load and ConfigureCheckoutState ran.
use pvpool.Prelude.{
  String, ◌≡◌, ◌≢◌, refl, sym, ap, subst, ◌∙◌, true, false, Option, none, some, arith, is_some,
  Bool-cases, Option-cases, inl, inr,
}
use pvpool.Exec.{Outcome, ok, err, panic, timeout, Returns, Exec, catch, deref, ◌>>=◌, ◌>>◌}
use pvpool.Exec.Rules.{outcome-run, Returns-bind, Keeps-bind}
use pvpool.Api.Core.{Pv, Pvc}
use pvpool.Api.State.{CheckoutState}
use pvpool.Kube.{Kube, default, background}
use pvpool.Kube.Laws.{AnnotateLaws, PersistLaws}
use pvpool.Replica.Phase.{is_bound}
use pvpool.CheckoutState.Pairs.{
  Pair, locked, final, claim_of, volume_of, put_claim, on_claim, note_cond,
}
use pvpool.CheckoutState.Load.{load}
use pvpool.CheckoutState.Configure.{configure_checkout_state}
use pvpool.CheckoutState.Persist.{
  persist, persist_pair, release_locked, claim_failed, need_volume, persist_volume, with_uid,
  delete_locked_volume, checked_out,
}
use pvpool.CheckoutState.Ownership.{volume_of-put_claim}
use pvpool.CheckoutState.Loading.{IsReady, load-IsReady}
use pvpool.CheckoutState.Binding.{configure_checkout_state-IsBinding}

-- No volume of the state lacks its reference to a claim.
abbrev pub HasRef : Option Pv → Type 0
HasRef none = Unit {0}
HasRef (some v) = is_some v.spec.claim_ref ≡ true

module _ (k : Kube) (laws : PersistLaws k) where
  -- After an `on_claim` the state's volume is as it was.
  on_claim_run :
      (p : Pair) (m : Exec k.Error (k.World × Pvc) (Unit {0})) (s : k.World × CheckoutState)
      → volume_of p (on_claim k p m s).1.1 ≡ volume_of p s.1
  on_claim_run p m s = volume_of-put_claim p (m (s.0, claim_of p s.1)).1.1 s.1

  claim_failed-Returns :
      (p : Pair) (e : k.Error) (s : k.World × CheckoutState)
      → Returns (claim_failed k p e s).0 × ((claim_failed k p e s).0 ≢ ok tt)
  claim_failed-Returns p e s = ground arith

  abbrev persist_claim : Pair → Exec k.Error (k.World × CheckoutState) (Unit {0})
  persist_claim p = catch (on_claim k p k.persist_pvc) (claim_failed k p)

  -- What `catch` makes of the outcome of the claim's Persist.
  persist_claim_run :
      (p : Pair) (s : k.World × CheckoutState)
      → Returns (persist_claim p s).0
        × ((persist_claim p s).0 ≡ ok tt → volume_of p (persist_claim p s).1.1 ≡ volume_of p s.1)
  persist_claim_run p s =
      go (k.persist_pvc (s.0, claim_of p s.1)) (laws.persist_pvc-Returns (s.0, claim_of p s.1))
    where
      handled :
          Outcome k.Error (Unit {0}) × (k.World × Pvc)
          → Outcome k.Error (Unit {0}) × (k.World × CheckoutState)
      handled d =
          catch {S = k.World × CheckoutState} (λ _. (d.0, (d.1.0, put_claim p d.1.1 s.1)))
            (claim_failed k p) s

      go :
          (d : Outcome k.Error (Unit {0}) × (k.World × Pvc))
          → Returns d.0
          → Returns (handled d).0
            × ((handled d).0 ≡ ok tt → volume_of p (handled d).1.1 ≡ volume_of p s.1)
      go (ok tt, t) h = (tt, λ _. volume_of-put_claim p t.1 s.1)
      go (err e, t) h =
          let (r, n) = claim_failed-Returns p e (t.0, put_claim p t.1 s.1) in (r, λ q. absurd (n q))
      go (panic, t) h = absurd h
      go (timeout, t) h = absurd h

  abbrev write_volume :
      Pair → String → Option Pv → Exec k.Error (k.World × CheckoutState) (Unit {0})
  write_volume p uid o =
      need_volume k p o >>= λ v. deref v.spec.claim_ref >> persist_volume k p (with_uid uid v)

  write_volume-Returns :
      (p : Pair) (uid : String) (o : Option Pv) (s : k.World × CheckoutState)
      → HasRef o
      → Returns (write_volume p uid o s).0
  write_volume-Returns p uid none s h = tt
  write_volume-Returns p uid (some v) s h = elim (Option-cases v.spec.claim_ref) [
    | inl missing ↦ absurd (ground arith)
    | inr (ref, e) ↦
        Returns-bind (deref v.spec.claim_ref) (λ _. persist_volume k p (with_uid uid v)) s (rw e tt)
          λ _ t _. laws.persist_pv-Returns (t.0, with_uid uid v)
  ]

  persist_pair-Returns :
      (p : Pair) (s : k.World × CheckoutState)
      → HasRef (volume_of p s.1)
      → Returns (persist_pair k p s).0
  unfolding persist_pair
  persist_pair-Returns p s h =
      Returns-bind (on_claim k p (k.checkout_owns s.1.checkout)) _ s
        (laws.checkout_owns-Returns s.1.checkout (s.0, claim_of p s.1))
        λ _ s1 e1. Returns-bind (persist_claim p) _ s1 (persist_claim_run p s1).0 λ _ s2 e2.
          let kept1 : volume_of p s1.1 ≡ volume_of p s.1 =
            ap (λ (q : Outcome k.Error (Unit {0}) × (k.World × CheckoutState)). volume_of p q.1.1)
              (sym e1)
            ∙ on_claim_run p (k.checkout_owns s.1.checkout) s in
          let kept2 : volume_of p s2.1 ≡ volume_of p s1.1 =
            ap (λ (q : Outcome k.Error (Unit {0}) × (k.World × CheckoutState)). volume_of p q.1.1)
              (sym e2)
            ∙ (persist_claim_run p s1).1 (outcome-run e2) in
          write_volume-Returns p (claim_of p s2.1).metadata.uid (volume_of p s2.1) s2
            (subst HasRef (sym (kept2 ∙ kept1)) h)

  volume-write_volume :
      (uid : String) (o : Option Pv) (s : k.World × CheckoutState)
      → (write_volume locked uid o s).1.1.volume ≡ s.1.volume
  volume-write_volume uid none s = refl
  volume-write_volume uid (some v) s = ground arith

  volume-persist_claim :
      (s : k.World × CheckoutState) → (persist_claim locked s).1.1.volume ≡ s.1.volume
  volume-persist_claim s = ground arith

  -- Writing the locked pair leaves the other volume alone.
  volume-persist_pair :
      (s : k.World × CheckoutState) → (persist_pair k locked s).1.1.volume ≡ s.1.volume
  unfolding persist_pair
  volume-persist_pair s =
      Keeps-bind (λ t. t.1.volume ≡ s.1.volume) (on_claim k locked (k.checkout_owns s.1.checkout)) _
        s refl
        λ _ s1 h1.
          Keeps-bind (λ t. t.1.volume ≡ s.1.volume) (persist_claim locked) _ s1
            (volume-persist_claim s1 ∙ h1)
            λ _ s2 h2.
              volume-write_volume (claim_of locked s2.1).metadata.uid (volume_of locked s2.1) s2
              ∙ h2

  delete_locked_volume-Returns :
      (o : Option Pv) (s : k.World × CheckoutState) → Returns (delete_locked_volume k o s).0
  delete_locked_volume-Returns none s = tt
  delete_locked_volume-Returns (some v) s =
      ground (arith, laws.delete_pv-Returns background (s.0, v))

  release_locked-Returns : (s : k.World × CheckoutState) → Returns (release_locked k s).0
  unfolding release_locked
  release_locked-Returns s =
      Returns-bind (delete_locked_volume k s.1.locked_volume) _ (s.0, note_cond checked_out s.1)
        (delete_locked_volume-Returns s.1.locked_volume (s.0, note_cond checked_out s.1))
        λ _ s1 _.
          Returns-bind (on_claim k locked (k.delete_pvc default)) _ s1
            (laws.delete_pvc-Returns default (s1.0, claim_of locked s1.1)) λ _ _ _. tt

  persist-Returns :
      (s : k.World × CheckoutState)
      → (is_bound s.1.claim.phase ≡ false → HasRef s.1.locked_volume × HasRef s.1.volume)
      → Returns (persist k s).0
  unfolding persist
  persist-Returns s h = elim (Bool-cases (is_bound s.1.claim.phase)) [
    | inl bound ↦ rw bound (release_locked-Returns s)
    | inr loose ↦ rw loose (
        Returns-bind (persist_pair k locked) (λ _. persist_pair k final) s
          (persist_pair-Returns locked s (h loose).0)
          λ _ t e. persist_pair-Returns final t (
            subst HasRef
              (sym (volume-persist_pair s)
                ∙ ap (λ (q : Outcome k.Error (Unit {0}) × (k.World × CheckoutState)). q.1.1.volume)
                    e)
              (h loose).1))
  ]

  refs_after_configure :
      AnnotateLaws k
      → (cs : CheckoutState) → IsReady cs
      → let out = configure_checkout_state k cs in
        is_bound out.claim.phase ≡ false → HasRef out.locked_volume × HasRef out.volume
  refs_after_configure annotates cs ready = elim (Bool-cases (is_bound cs.claim.phase)) [
    | inl bound ↦ λ h. absurd (unfold configure_checkout_state in ground arith)
    | inr loose ↦ λ _. elim (Option-cases cs.locked_volume) [
      | inl gone ↦ absurd (ground arith)
      | inr (lv, e) ↦
          let b = configure_checkout_state-IsBinding k annotates cs lv loose e in
          (
            subst HasRef (sym b.has_locked) (ap is_some b.locked_refers),
            subst HasRef (sym b.has_volume) (ap is_some b.refers),
          )
    ]
  ]

  -- A reconcile whose Load succeeds goes through Persist without a nil dereference: on the state
  -- that ConfigureCheckoutState makes of what Load found, Persist ends with success or an error.
  pub persist_after_load-Returns :
      (s s' : k.World × CheckoutState)
      → AnnotateLaws k
      → load k s ≡ (ok true, s')
      → Returns (persist k (s'.0, configure_checkout_state k s'.1)).0
  persist_after_load-Returns s s' annotates h =
      persist-Returns (s'.0, configure_checkout_state k s'.1)
        (refs_after_configure annotates s'.1 (load-IsReady k s s' h))
