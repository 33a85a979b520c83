-- ===== src/CheckoutState/BothPairs.antt =====
-- ConfigureCheckoutState and then Persist (pkg/controller/app/checkout_state.go), on the API server.
use pvpool.Prelude.{◌≡◌, refl, sym, ap, subst, ◌∙◌, String, false, Option, none, some}
use pvpool.Prelude.Members.{some-eq}
use pvpool.Exec.{ok, ◌>>◌}
use pvpool.Exec.Rules.{Gives, Gives-bind, Gives-both, Gives-imp}
use pvpool.Api.Core.{Pv}
use pvpool.Api.State.{CheckoutState}
use pvpool.Kube.{Kube}
use pvpool.Kube.Laws.{AnnotateLaws}
use pvpool.Kube.Store.{Store, StoreLaws, OtherLaws}
use pvpool.Replica.Phase.{is_bound}
use pvpool.CheckoutState.Pairs.{locked, final}
use pvpool.CheckoutState.Configure.{configure_checkout_state, configure_locked, configure_from}
use pvpool.CheckoutState.Binding.{IsBinding, configure_checkout_state-IsBinding}
use pvpool.CheckoutState.Persist.{persist_pair, persist}
use pvpool.CheckoutState.Stored.{IsStored, persist_pair-IsStored}
use pvpool.CheckoutState.BothStored.{
  LockedRound, Beside, persist_locked-LockedRound, persist_final-Beside,
}

module _ (k : Kube) where
  -- What ConfigureCheckoutState leaves alone.
  record SameKeys (cs out : CheckoutState) : Type 0 where
    pub checkout : out.checkout ≡ cs.checkout
    pub phase : out.claim.phase ≡ cs.claim.phase
    pub key : out.claim.key ≡ cs.claim.key
    pub locked_key : out.locked_claim.key ≡ cs.locked_claim.key

  configure_locked-SameKeys :
      (o : Option Pv) (cs : CheckoutState) → SameKeys cs (configure_locked k o cs)
  unfolding configure_from
  configure_locked-SameKeys none cs = record {
    checkout = refl;
    phase = refl;
    key = refl;
    locked_key = refl;
  }
  configure_locked-SameKeys (some lv) cs = record {
    checkout = refl;
    phase = refl;
    key = refl;
    locked_key = refl;
  }

  configure-SameKeys :
      (cs : CheckoutState)
      → is_bound cs.claim.phase ≡ false
      → SameKeys cs (configure_checkout_state k cs)
  unfolding configure_checkout_state
  configure-SameKeys cs loose = rw loose (configure_locked-SameKeys cs.locked_volume cs)

  persist_loose :
      (s : k.World × CheckoutState)
      → is_bound s.1.claim.phase ≡ false
      → persist k s ≡ (persist_pair k locked >> persist_pair k final) s
  unfolding persist
  persist_loose s loose = rw loose refl

  module _ (st : Store k) (laws : StoreLaws k st) (others : OtherLaws k st)
      (ann : AnnotateLaws k) where
    -- When a checkout whose claim is not bound yet has a volume to lock, and what was configured for
    -- it is persisted with success, both of its claims are on the server, controlled by the
    -- checkout, and with each the volume that it names and that refers back to it; if the two claims
    -- have different keys and the two volumes different names, and if the server keeps what was
    -- persisted when other objects are written.
    pub persist-IsStored :
        (s t : k.World × CheckoutState) (lv : Pv)
        → is_bound s.1.claim.phase ≡ false
        → s.1.locked_volume ≡ some lv
        → ¬ (s.1.claim.key ≡ s.1.locked_claim.key)
        → ((u : Pv) → (configure_checkout_state k s.1).volume ≡ some u → ¬ (u.name ≡ lv.name))
        → persist k (s.0, configure_checkout_state k s.1) ≡ (ok tt, t)
        → IsStored k st locked s.1.checkout.metadata.uid t
          × IsStored k st final s.1.checkout.metadata.uid t
    persist-IsStored s t lv loose chosen other_key other_name run =
        subst (Gives Both Lost) (sym (persist_loose start (rw same.phase loose)) ∙ run) (
          Gives-bind First Both Lost (persist_pair k locked) (λ _. persist_pair k final) start
            (Gives-both (λ _. IsStored k st locked uid)
              (λ _. LockedRound k st laws others out b.kept.name) Lost Lost
              (persist_pair k locked start)
              (persist_pair-IsStored k st laws locked uid b.kept start owner b.has_locked
                (b.locked_named ∙ sym b.same_name))
              (persist_locked-LockedRound k st laws others start b.kept.name
                λ u e. ap (λ x. x.name) (some-eq (sym e ∙ b.has_locked))))
            λ _ u hu.
              Gives-imp _ Both Lost Lost (persist_pair k final u) (λ _ x g. (g.0.stored, g.1))
                (λ _ _. tt)
                (Gives-both (λ _. Beside k st laws others uid) (λ _. IsStored k st final uid) Lost
                  Lost (persist_pair k final u)
                  (persist_final-Beside k st laws others uid u (beside u hu))
                  (persist_pair-IsStored k st laws final uid b.v u
                    (ap (λ c. c.metadata.uid) hu.1.same_checkout ∙ owner)
                    (hu.1.same_volume ∙ b.has_volume)
                    (ap (λ c. c.spec.volume_name) hu.1.same_claim ∙ b.named))))
      where
        out : CheckoutState
        out = configure_checkout_state k s.1

        start : k.World × CheckoutState
        start = (s.0, out)

        uid : String
        uid = s.1.checkout.metadata.uid

        b : IsBinding k s.1 lv out
        b = configure_checkout_state-IsBinding k ann s.1 lv loose chosen

        same : SameKeys s.1 out
        same = configure-SameKeys s.1 loose

        owner : out.checkout.metadata.uid ≡ uid
        owner = ap (λ c. c.metadata.uid) same.checkout

        Lost : k.World × CheckoutState → Type 0
        Lost _ = Unit {0}

        First : Unit {0} → k.World × CheckoutState → Type 0
        First _ u = IsStored k st locked uid u × LockedRound k st laws others out b.kept.name u

        Both : Unit {0} → k.World × CheckoutState → Type 0
        Both _ u = IsStored k st locked uid u × IsStored k st final uid u

        beside : (u : k.World × CheckoutState) → First tt u → Beside k st laws others uid u
        beside u hu = record {
          stored = hu.0;
          other_key = λ e. other_key (
              sym same.key
              ∙ sym (ap (λ c. c.key) hu.1.same_claim)
              ∙ e
              ∙ hu.1.key
              ∙ same.locked_key);
          other_name = λ x e name.
              other_name x (sym hu.1.same_volume ∙ e)
                (name ∙ hu.1.volume_name hu.0.v hu.0.is_volume ∙ b.same_name);
        }
