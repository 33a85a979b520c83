-- ===== src/Tests/Stores.antt =====
-- The small API server as a store, and a checkout that is reconciled twice.
use pvpool.Prelude.{
  ◌≡◌, refl, ap, ◌∙◌, true, eq_refl, some, none, false, is_some, String, ◌==◌, eq_iff, Bool-cases,
  inl, inr,
}
use pvpool.Api.Core.{Key, Pv}
use pvpool.Api.State.{CheckoutState}
use pvpool.Kube.Store.{Store, StoreLaws, OtherLaws}
use pvpool.CheckoutState.Pairs.{locked, final, new_checkout_state, or_else}
use pvpool.CheckoutState.Load.{load_pair}
use pvpool.CheckoutState.Persist.{persist_pair, persist}
use pvpool.CheckoutState.Configure.{
  configure_checkout_state, configure_from, copy_volume, lock_volume,
}
use pvpool.CheckoutState.Stored.{IsStored}
use pvpool.CheckoutState.BothPairs.{persist-IsStored}
use pvpool.Prelude.Members.{some-eq}
use pvpool.Tests.Frames.{key_eq}
use pvpool.Tests.Laws.{toy-AnnotateLaws}
use pvpool.CheckoutState.Reload.{load_pair-persist_pair}
use pvpool.Tests.Cluster.{Cluster, toy, blank_pvc, is_key, is_claimed, find}
use pvpool.Tests.Pools.{cluster, volume_a, key_of}
use pvpool.Tests.Checkouts.{request}

abbrev pub store : Store toy
store = record {
  HasClaim = λ w c. find (λ d. is_key d.key c.key) w.claims ≡ some c;
  HasVolume = λ w v. find (is_claimed v.name) w.volumes ≡ some v;
}

pub is_key_refl : (key : Key) → is_key key key ≡ true
is_key_refl key = rw (eq_refl key.namespace, eq_refl key.name) refl

is_claimed_self : (v : Pv) → is_some v.spec.claim_ref ≡ true → is_claimed v.name v ≡ true
is_claimed_self v h = rw (eq_refl v.name, h) refl

pub toy-StoreLaws : StoreLaws toy store
toy-StoreLaws = record {
  new_pv-name = λ _. refl;
  checkout_owns-Controls = λ c s. (eq_refl c.metadata.uid, refl);
  persist_pvc-HasClaim = λ s. (rw (is_key_refl s.1.key) refl, refl, refl);
  persist_pv-HasVolume = λ s h. (rw (is_claimed_self s.1 h) refl, refl, refl);
  persist_pv-HasClaim = λ _ _ h. h;
  load_pvc-HasClaim = λ s c h key.
      rw (ap (λ x. find (λ d. is_key d.key x) s.0.claims) key ∙ h) (refl, refl, λ v g. g);
  load_pv-HasVolume =
      λ s v h name. rw (ap (λ x. find (is_claimed x) s.0.volumes) name ∙ h) (refl, refl);
}

-- The locked pair of a checkout whose locked claim names the volume.
abbrev locking : CheckoutState
locking =
    let cs = new_checkout_state toy request in
    record cs {
      locked_volume = some volume_a;
      locked_claim = record (cs.locked_claim) {
        spec = record (cs.locked_claim.spec) { volume_name = "vol-a" };
      };
    }

abbrev written : Cluster × CheckoutState
written = (persist_pair toy locked (cluster, locking)).1

abbrev again : CheckoutState
again = new_checkout_state toy request

load_pair-persist_pair_example :
    let t = (load_pair toy locked (written.0, again)).1 in
    (t.1.locked_claim ≡ written.1.locked_claim) × (t.1.locked_volume ≡ written.1.locked_volume)
unfolding new_checkout_state or_else persist_pair load_pair
load_pair-persist_pair_example =
    load_pair-persist_pair toy store toy-StoreLaws locked "" volume_a (cluster, locking) written
      again (load_pair toy locked (written.0, again)).1 refl refl refl refl refl refl refl

key_apart : (a b : Key) → ¬ (a ≡ b) → is_key a b ≡ false
key_apart a b ne = elim (Bool-cases (is_key a b)) [
  | inl same ↦ absurd (ne (key_eq a b same))
  | inr other ↦ other
]

name_apart : (a b : String) → ¬ (a ≡ b) → (a == b) ≡ false
name_apart a b ne = elim (Bool-cases (a == b)) [
  | inl same ↦ absurd (ne ((eq_iff a b).0 same))
  | inr other ↦ other
]

toy-OtherLaws : OtherLaws toy store
toy-OtherLaws = record {
  checkout_owns-key = λ _ _. refl;
  checkout_owns-keeps_claim = λ _ _ _ h. h;
  checkout_owns-keeps_volume = λ _ _ _ h. h;
  persist_pvc-key = λ _. refl;
  persist_pvc-keeps_claim = λ s d ne h. rw (key_apart s.1.key d.key ne) h;
  persist_pvc-keeps_volume = λ _ _ h. h;
  persist_pv-name = λ _. refl;
  persist_pv-keeps_volume = λ s v ne h. rw (name_apart s.1.name v.name ne) h;
}

-- A checkout that has loaded a volume, and is configured and persisted.
abbrev loaded : CheckoutState
loaded = record {
  checkout = request;
  claim = blank_pvc (key_of "data");
  volume = none;
  locked_claim = blank_pvc (key_of "my-locked");
  locked_volume = some volume_a;
  conds = λ _. none;
}

abbrev done : Cluster × CheckoutState
done = (persist toy (cluster, configure_checkout_state toy loaded)).1

another_name :
    (u : Pv) → (configure_checkout_state toy loaded).volume ≡ some u → ¬ (u.name ≡ "vol-a")
unfolding configure_checkout_state configure_from copy_volume
another_name u e same = cc ((eq_iff "-" "vol-a").1 (ap (λ x. x.name) (some-eq e) ∙ same))

persist-IsStored_example : IsStored toy store locked "" done × IsStored toy store final "" done
persist-IsStored_example =
    persist-IsStored toy store toy-StoreLaws toy-OtherLaws toy-AnnotateLaws (cluster, loaded) done
      volume_a refl refl (λ e. cc ((eq_iff "data" "my-locked").1 (ap (λ key. key.name) e)))
      another_name
      (unfold persist persist_pair configure_checkout_state configure_from copy_volume
          lock_volume in
        refl)
