-- ===== src/Tests/LockLaws.antt =====
-- The laws that the theorems on locked volumes ask of the API server, for the one that keeps uids
-- apart.
use pvpool.Prelude.{
  ◌≡◌, refl, sym, ap, subst, ◌∙◌, String, Bool, true, false, ◌==◌, arith, eq_iff, Bool-cases,
  Option-cases, inl, inr,
}
use pvpool.Prelude.Members.{some-eq}
use pvpool.Exec.{Outcome, ok}
use pvpool.Api.Core.{Pvc, Pv}
use pvpool.Api.Resources.{new_pool, Checkout}
use pvpool.Kube.Frame.{PoolLaws, CheckoutLaws, KeyLaws}
use pvpool.Kube.Lock.{LockLaws}
use pvpool.PoolState.Load.{is_other}
use pvpool.PoolState.Taken.{not_other, controller-eq}
use pvpool.CheckoutState.Load.{is_controller}
use pvpool.Reconcile.Interleaving.{AnyKey}
use pvpool.Tests.Cluster.{Cluster, is_key, is_claimed, find, find_pool}
use pvpool.Tests.Laws.{find_holds, find-All, found_or-eq-some}
use pvpool.Tests.Frames.{key_eq}
use pvpool.Tests.Locks.{
  strict, strict_store, taken_claim, taken_volume, uids, locked_frame, NotOwner, IsTaken,
}

-- A claim that is found under the locked claim's key is the locked claim.
served_claim :
    (s t : Cluster × Pvc)
    → locked_frame.Safe s.0
    → strict.load_pvc s ≡ (ok true, t)
    → t.1.key ≡ taken_claim.key
    → t.1 ≡ taken_claim
served_claim s t h e here =
    let found = found_or-eq-some (find (λ d. is_key d.key s.1.key) s.0.claims) s t e in
    let same : t.1.key ≡ s.1.key =
      key_eq t.1.key s.1.key (find_holds (λ d. is_key d.key s.1.key) s.0.claims t.1 found) in
    some-eq
      (sym found ∙ ap (λ key. find (λ d. is_key d.key key) s.0.claims) (sym same ∙ here) ∙ h.1)

absent_claim :
    (s t : Cluster × Pvc)
    → locked_frame.Safe s.0
    → strict.load_pvc s ≡ (ok false, t)
    → ¬ (t.1.key ≡ taken_claim.key)
absent_claim s t h e here = elim (Option-cases (find (λ d. is_key d.key s.1.key) s.0.claims)) [
  | inr (d, found) ↦ absurd (cc (found, e))
  | inl missing ↦
      let same : ◌≡◌ {A = Outcome String Bool × (Cluster × Pvc)} (ok false, s) (ok false, t) =
        rw missing at e in
      let key : s.1.key ≡ taken_claim.key =
        ap (λ (q : Outcome String Bool × (Cluster × Pvc)). q.1.1.key) same ∙ here in
      absurd (cc (ap (λ x. find (λ d. is_key d.key x) s.0.claims) key, h.1, missing))
]

pub strict-PoolLaws : PoolLaws strict locked_frame
strict-PoolLaws = record {
  load_pool-IsPool = λ key w t h e.
      find-All (λ p. NotOwner p.metadata.uid) (λ p. is_key p.key key) w.pools t.1 h.0.1
        (found_or-eq-some (find_pool key w) (w, new_pool key) t e);
  pool_claim-Own = λ uid s t h apart e own here. apart (
      not_other "owner-uid" uid (strict.controller_of taken_claim.metadata) refl (
        subst (λ d. is_other uid (strict.controller_of d.metadata) ≡ false)
          (served_claim s t h e here) own));
  new_id-Own = λ w h. (h, λ namespace name e. suffixed name (ap (λ key. key.name) e));
  finalize-Held = λ _ _ _ _ h. h;
}
  where
    suffixed : (name : String) → ¬ (strict.meta_name_suffixed name "-%s" ≡ "my-locked")
    suffixed name e = elim (Bool-cases (name == "pvpool")) [
      | inl h ↦ absurd (cc ((eq_iff "pvpool-new" "my-locked").1 (rw h at e)))
      | inr h ↦ absurd (cc ((eq_iff "-%s" "my-locked").1 (rw h at e)))
    ]

pub strict-CheckoutLaws : CheckoutLaws strict locked_frame
strict-CheckoutLaws = record {
  load_checkout-Safe = λ _ h. h;
  require_pool-Gives = λ key w h. elim (Option-cases (find_pool key w)) [
    | inl missing ↦ rw missing h
    | inr (p, e) ↦
        rw e (h, find-All (λ q. NotOwner q.metadata.uid) (λ q. is_key q.key key) w.pools p h.0.1 e)
  ];
  checkout_claim-Own = λ uid s t h apart e own here. apart (
      controller-eq uid "owner-uid" (strict.controller_of taken_claim.metadata)
        (subst (λ d. is_controller uid (strict.controller_of d.metadata) ≡ true)
          (served_claim s t h e here) own)
        refl);
  absent_claim-Own = absent_claim;
  checkout_owns-Held = λ _ _ h. h;
  update_checkout_status-Safe = λ _ h. h;
}

pub not_owner : NotOwner ""
not_owner e = cc e

pub strict-KeyLaws : KeyLaws strict locked_frame AnyKey
strict-KeyLaws = record {
  load_checkout-IsCheckout = λ key w t _ h e.
      subst (λ (q : Outcome String Bool × (Cluster × Checkout)). NotOwner q.1.1.metadata.uid) e
        not_owner;
}

pub strict-LockLaws : LockLaws strict strict_store uids "owner-uid" taken_claim taken_volume
strict-LockLaws = record {
  load_pv-same = λ s h name. rw (ap (λ x. find (is_claimed x) s.0.volumes) name ∙ h.2) (refl, refl);
  load_pv-name = λ s. elim (Option-cases (find (is_claimed s.1.name) s.0.volumes)) [
    | inl missing ↦ rw missing refl
    | inr (u, e) ↦ rw e (named s.1.name u (find_holds (is_claimed s.1.name) s.0.volumes u e))
  ];
  load_pvc-same = λ s t h e.
      find-All IsTaken (λ d. is_key d.key s.1.key) s.0.claims t.1 h.0.0
        (found_or-eq-some (find (λ d. is_key d.key s.1.key) s.0.claims) s t e);
  new_volume-Other = λ u _ e. cc ((eq_iff "pvpool-new" "vol-a").1 e);
}
  where
    named : (name : String) (u : Pv) → is_claimed name u ≡ true → u.name ≡ name
    named name u h = (eq_iff u.name name).0 (ground arith)
