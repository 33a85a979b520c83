-- ===== src/Kube/Store.antt =====
-- The API server as a store: the documented behaviour of a Load after a Persist.
use pvpool.Prelude.{◌≡◌, String, true, is_some}
use pvpool.Exec.Rules.{Gives}
use pvpool.Api.Core.{Pvc, Pv}
use pvpool.Api.Resources.{Checkout}
use pvpool.Kube.{Kube}
use pvpool.CheckoutState.Load.{is_controller}

-- Which claims and volumes the server has, as they are.
pub record Store (k : Kube) : Type 1 where
  pub HasClaim : k.World → Pvc → Type 0
  pub HasVolume : k.World → Pv → Type 0

module _ (k : Kube) (st : Store k) where
  -- A checkout that owns a claim controls it. What was persisted is there, as the call left it; a
  -- claim keeps its controller and the volume that it names, a volume its name and its ClaimRef.
  -- Writing a volume leaves the claims alone. A Load that ends without an error finds what is there,
  -- and changes nothing.
  pub record StoreLaws : Type 0 where
    pub new_pv-name : (name : String) → (k.new_pv name).name ≡ name
    pub checkout_owns-Controls :
        (c : Checkout) (s : k.World × Pvc)
        → Gives
            (λ _ t.
              (is_controller c.metadata.uid (k.controller_of t.1.metadata) ≡ true)
              × (t.1.spec.volume_name ≡ s.1.spec.volume_name))
            (λ _. Unit {0})
            (k.checkout_owns c s)
    pub persist_pvc-HasClaim :
        (s : k.World × Pvc)
        → Gives
            (λ _ t.
              st.HasClaim t.0 t.1
              × (k.controller_of t.1.metadata ≡ k.controller_of s.1.metadata)
              × (t.1.spec.volume_name ≡ s.1.spec.volume_name))
            (λ _. Unit {0})
            (k.persist_pvc s)
    pub persist_pv-HasVolume :
        (s : k.World × Pv)
        → is_some s.1.spec.claim_ref ≡ true
        → Gives
            (λ _ t.
              st.HasVolume t.0 t.1
              × (t.1.name ≡ s.1.name)
              × (t.1.spec.claim_ref ≡ s.1.spec.claim_ref))
            (λ _. Unit {0})
            (k.persist_pv s)
    pub persist_pv-HasClaim :
        (s : k.World × Pv) (c : Pvc) → st.HasClaim s.0 c → st.HasClaim (k.persist_pv s).1.0 c
    pub load_pvc-HasClaim :
        (s : k.World × Pvc) (c : Pvc)
        → st.HasClaim s.0 c
        → s.1.key ≡ c.key
        → Gives
            (λ found t.
              (found ≡ true) × (t.1 ≡ c) × ((v : Pv) → st.HasVolume s.0 v → st.HasVolume t.0 v))
            (λ _. Unit {0})
            (k.load_pvc s)
    pub load_pv-HasVolume :
        (s : k.World × Pv) (v : Pv)
        → st.HasVolume s.0 v
        → s.1.name ≡ v.name
        → Gives (λ found t. (found ≡ true) × (t.1 ≡ v)) (λ _. Unit {0}) (k.load_pv s)

  -- Writing an object leaves the others as they are, and so does setting an owner, which keeps the
  -- claim's key.
  pub record OtherLaws : Type 0 where
    pub checkout_owns-key :
        (c : Checkout) (s : k.World × Pvc) → (k.checkout_owns c s).1.1.key ≡ s.1.key
    pub checkout_owns-keeps_claim :
        (c : Checkout) (s : k.World × Pvc) (d : Pvc)
        → st.HasClaim s.0 d
        → st.HasClaim (k.checkout_owns c s).1.0 d
    pub checkout_owns-keeps_volume :
        (c : Checkout) (s : k.World × Pvc) (v : Pv)
        → st.HasVolume s.0 v
        → st.HasVolume (k.checkout_owns c s).1.0 v
    pub persist_pvc-key : (s : k.World × Pvc) → (k.persist_pvc s).1.1.key ≡ s.1.key
    pub persist_pvc-keeps_claim :
        (s : k.World × Pvc) (d : Pvc)
        → ¬ (s.1.key ≡ d.key)
        → st.HasClaim s.0 d
        → st.HasClaim (k.persist_pvc s).1.0 d
    pub persist_pvc-keeps_volume :
        (s : k.World × Pvc) (v : Pv) → st.HasVolume s.0 v → st.HasVolume (k.persist_pvc s).1.0 v
    pub persist_pv-name : (s : k.World × Pv) → (k.persist_pv s).1.1.name ≡ s.1.name
    pub persist_pv-keeps_volume :
        (s : k.World × Pv) (v : Pv)
        → ¬ (s.1.name ≡ v.name)
        → st.HasVolume s.0 v
        → st.HasVolume (k.persist_pv s).1.0 v
