-- ===== src/Tests/Frames.antt =====
-- A claim of somebody else's on the small API server, and the laws that keep it safe.
use pvpool.Prelude.{
  ◌≡◌, refl, sym, ap, subst, ◌∙◌, String, Bool, true, false, ◌&&◌, ◌==◌, Option, none, some, List,
  [], ◌∷◌, All, arith, eq_iff, Bool-cases, Option-cases, inl, inr,
}
use pvpool.Prelude.Members.{some-eq}
use pvpool.Exec.{Outcome, ok}
use pvpool.Api.Core.{Key, empty_meta, Pvc}
use pvpool.Api.Resources.{new_pool, Checkout}
use pvpool.PoolState.Load.{is_other}
use pvpool.CheckoutState.Load.{is_controller}
use pvpool.Kube.Frame.{Frame, ReadLaws, ClaimLaws, PoolLaws, CheckoutLaws, VolumeLaws, KeyLaws}
use pvpool.Kube.Disturbed.{disturbed}
use pvpool.Reconcile.Interleaving.{
  start, next, pool, checkout, others, reachable-Safe, AnyVolume, AnyKey,
}
use pvpool.Tests.Cluster.{Cluster, toy, blank_pvc, is_key, find, remove, find_pool, found_or}
use pvpool.Tests.Laws.{find_holds, find-All, find-remove, found_or-eq-some}
use pvpool.Reconcile.Pools
use pvpool.Reconcile.Checkouts
use pvpool.Tests.Pools.{key_of, cluster}

-- A claim that another object controls.
abbrev theirs : Pvc
theirs = record (blank_pvc (key_of "theirs")) {
  metadata = record empty_meta { owners = record { uid = "someone"; controller = true } ∷ [] };
}

abbrev is_theirs : Pvc → Bool
is_theirs c = is_key c.key (key_of "theirs")

abbrev IsOurs : String → Type 0
IsOurs uid = ("someone" == uid) ≡ false

-- It is there, as it was made, and no pool is its controller.
abbrev StillThere : Cluster → Type 0
StillThere w = (find is_theirs w.claims ≡ some theirs) × All (λ p. IsOurs p.metadata.uid) w.pools

abbrev frame : Frame toy
frame = record {
  Safe = StillThere;
  Own = λ key. is_key key (key_of "theirs") ≡ false;
  IsPool = IsOurs;
  IsCheckout = IsOurs;
}

module _ {A : Type 0} where
  pub world-found_or : (o : Option A) (s : Cluster × A) → (found_or o s).1.0 ≡ s.0
  world-found_or none s = refl
  world-found_or (some a) s = refl

toy-ReadLaws : ReadLaws toy frame
toy-ReadLaws = record {
  load_job-Safe = λ _ h. h;
  delete_job-Safe = λ _ _ h. h;
  set_dependency_of-Safe = λ _ _ h. h;
  load_pv-Safe = λ s h. subst StillThere (sym (world-found_or _ s)) h;
  list_pvcs-Safe = λ _ _ _ h. h;
  new_rng-Safe = λ _ h. h;
  uint64_n-Safe = λ _ _ _ h. h;
  record_event-Safe = λ _ _ h. h;
  load_pool-Safe = λ s h. subst StillThere (sym (world-found_or _ s)) h;
  update_pool_status-Safe = λ _ h. h;
}

pub key_eq : (a b : Key) → is_key a b ≡ true → a ≡ b
key_eq a b h =
    let x : a.namespace ≡ b.namespace = (eq_iff a.namespace b.namespace).0 (ground arith) in
    let y : a.name ≡ b.name = (eq_iff a.name b.name).0 (ground arith) in cc

pub key-found_or :
    (l : List Pvc) (s : Cluster × Pvc)
    → (found_or (find (λ c. is_key c.key s.1.key) l) s).1.1.key ≡ s.1.key
key-found_or l s = elim (Option-cases (find (λ c. is_key c.key s.1.key) l)) [
  | inl missing ↦ rw missing refl
  | inr (c, e) ↦ rw e (key_eq c.key s.1.key (find_holds (λ d. is_key d.key s.1.key) l c e))
]

find_theirs-remove :
    (key : Key) (l : List Pvc)
    → is_key key (key_of "theirs") ≡ false
    → find is_theirs (remove (λ c. is_key c.key key) l) ≡ find is_theirs l
find_theirs-remove key l h =
    find-remove is_theirs (λ c. is_key c.key key) l
      λ c gone. subst (λ a. is_key a (key_of "theirs") ≡ false) (sym (key_eq c.key key gone)) h

toy-ClaimLaws : ClaimLaws toy frame
toy-ClaimLaws = record {
  new_pvc-key = λ _. refl;
  label_annotate_pvc-key = λ _ _. refl;
  load_pvc-Safe = λ s h. subst StillThere (sym (world-found_or _ s)) h;
  load_pvc-key = λ s. key-found_or s.0.claims s;
  pool_owns-Held = λ _ _ h. h;
  persist_pvc-Held = λ s h. ((rw h.1 h.0.0, h.0.1), h.1);
  delete_pvc-Held = λ _ s h. ((find_theirs-remove s.1.key s.0.claims h.1 ∙ h.0.0, h.0.1), h.1);
  persist_owned-Held = λ _ h. h;
}

-- A claim that was found is not theirs, unless their claim was found.
served-Own :
    (s t : Cluster × Pvc)
    → StillThere s.0
    → toy.load_pvc s ≡ (ok true, t)
    → ((t.1 ≡ theirs) → ⊥)
    → is_key t.1.key (key_of "theirs") ≡ false
served-Own s t h e differs = elim (Bool-cases (is_theirs t.1)) [
  | inr other ↦ other
  | inl it ↦
      let found = found_or-eq-some (find (λ c. is_key c.key s.1.key) s.0.claims) s t e in
      let same : t.1.key ≡ s.1.key =
        key_eq t.1.key s.1.key (find_holds (λ c. is_key c.key s.1.key) s.0.claims t.1 found) in
      let here : s.1.key ≡ key_of "theirs" = sym same ∙ key_eq t.1.key (key_of "theirs") it in
      absurd (
        differs
          (some-eq (sym found ∙ ap (λ key. find (λ c. is_key c.key key) s.0.claims) here ∙ h.0)))
]

absent-Own :
    (s t : Cluster × Pvc)
    → StillThere s.0
    → toy.load_pvc s ≡ (ok false, t)
    → is_key t.1.key (key_of "theirs") ≡ false
absent-Own s t h e = elim (Option-cases (find (λ c. is_key c.key s.1.key) s.0.claims)) [
  | inr (c, found) ↦ absurd (cc (found, e))
  | inl missing ↦ elim (Bool-cases (is_theirs s.1)) [
    | inr other ↦ subst (λ c. is_theirs c ≡ false) (unchanged missing) other
    | inl it ↦ absurd (
        cc (
          ap (λ key. find (λ c. is_key c.key key) s.0.claims) (key_eq s.1.key (key_of "theirs") it),
          h.0,
          missing,
        ))
  ]
]
  where
    unchanged : find (λ c. is_key c.key s.1.key) s.0.claims ≡ none → s.1 ≡ t.1
    unchanged missing =
        let same : ◌≡◌ {A = Outcome String Bool × (Cluster × Pvc)} (ok false, s) (ok false, t) =
          rw missing at e in
        ap (λ (q : Outcome String Bool × (Cluster × Pvc)). q.1.1) same

and_false : (b : Bool) → (b && false) ≡ false
and_false true = refl
and_false false = refl

toy-PoolLaws : PoolLaws toy frame
toy-PoolLaws = record {
  load_pool-IsPool = λ key w t h e.
      find-All (λ q. IsOurs q.metadata.uid) (λ q. is_key q.key key) w.pools t.1 h.1
        (found_or-eq-some (find_pool key w) (w, new_pool key) t e);
  pool_claim-Own = λ uid s t h ours e own. served-Own s t h e λ same.
      absurd (cc (subst (λ c. is_other uid (toy.controller_of c.metadata) ≡ false) same own, ours));
  new_id-Own = λ w h. (h, λ namespace name. and_false (namespace == "ns"));
  finalize-Held = λ _ _ _ _ h. h;
}

toy-VolumeLaws : VolumeLaws toy frame AnyVolume
toy-VolumeLaws = record {
  persist_pv-Safe = λ _ _ h. h;
  persist_pv-name = λ _. refl;
  delete_pv-Safe = λ _ _ _ h. h;
  delete_pv-name = λ _ _. refl;
}

toy-CheckoutLaws : CheckoutLaws toy frame
toy-CheckoutLaws = record {
  load_checkout-Safe = λ _ h. h;
  require_pool-Gives = λ key w h. elim (Option-cases (find_pool key w)) [
    | inl missing ↦ rw missing h
    | inr (p, e) ↦
        rw e (h, find-All (λ q. IsOurs q.metadata.uid) (λ q. is_key q.key key) w.pools p h.1 e)
  ];
  checkout_claim-Own = λ uid s t h ours e own. served-Own s t h e λ same.
      absurd
        (cc (subst (λ c. is_controller uid (toy.controller_of c.metadata) ≡ true) same own, ours));
  absent_claim-Own = absent-Own;
  checkout_owns-Held = λ _ _ h. h;
  update_checkout_status-Safe = λ _ h. h;
}

toy-KeyLaws : KeyLaws toy frame AnyKey
toy-KeyLaws = record {
  load_checkout-IsCheckout = λ key w t _ h e.
      subst (λ (q : Outcome String Bool × (Cluster × Checkout)). IsOurs q.1.1.metadata.uid) e refl;
}

-- Their claim is there, and two controllers and the owner of the events are at work.
abbrev shared : Cluster
shared = record cluster { claims = theirs ∷ cluster.claims }

abbrev Forget : Cluster → Cluster → Type 0
Forget w w' = w' ≡ record w { events = [] }

-- Before each call the server drops its events.
abbrev forget : Cluster → Cluster
forget w = record w { events = [] }

abbrev two_reconciles : Cluster → Cluster
two_reconciles w =
    (Checkouts.reconcile (disturbed toy forget) (key_of "checkout")
      (Pools.reconcile (disturbed toy forget) (key_of "pool") w).1).1

reachable-Safe_example : StillThere (forget (two_reconciles shared))
reachable-Safe_example =
    reachable-Safe toy Forget AnyKey frame toy-ReadLaws toy-ClaimLaws toy-PoolLaws toy-CheckoutLaws
      toy-KeyLaws toy-VolumeLaws forget (λ w h. h) (λ w w' e h. rw e h)
      (next (next (next start (pool (key_of "pool") shared)) (checkout (key_of "checkout") _ tt))
        (others refl))
      (refl, (refl, tt))
