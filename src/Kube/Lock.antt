-- ===== src/Kube/Lock.antt =====
-- A claim that a checkout controls, with the volume that points back at it, as the other
-- controllers find them: what they are not to write, and the documented behaviour of the API server
-- that they rely on.
use pvpool.Prelude.{◌≡◌, String, true, none}
use pvpool.Exec.{ok}
use pvpool.Exec.Rules.{Gives}
use pvpool.Api.Core.{Pvc, Pv}
use pvpool.Kube.{Kube}
use pvpool.Kube.Frame.{Frame}
use pvpool.Kube.Store.{Store}
use pvpool.CheckoutState.Configure.{new_volume}

-- When no two objects of the server have the same uid.
pub record Uids (k : Kube) : Type 1 where
  pub Distinct : k.World → Type 0

module _ (k : Kube) (st : Store k) (ids : Uids k) (owner : String) (c : Pvc) (v : Pv) where
  -- The claim and the volume are on the server, whose uids are distinct, and the claims under other
  -- keys may be written. The pools and the other checkouts have other uids than the checkout.
  abbrev pub lock_frame : Frame k
  lock_frame = record {
    Safe = λ w. ids.Distinct w × st.HasClaim w c × st.HasVolume w v;
    Own = λ key. ¬ (key ≡ c.key);
    IsPool = λ uid. ¬ (uid ≡ owner);
    IsCheckout = λ uid. ¬ (uid ≡ owner);
  }

  abbrev pub OtherVolume : String → Type 0
  OtherVolume name = ¬ (name ≡ v.name)

  -- The volume that is there is what a load of its name finds, and a load is of the name that was
  -- asked for. A claim with the uid of the one that is
  -- there is that claim. The name that is made from another volume's uid is another name.
  pub record LockLaws : Type 0 where
    pub load_pv-same :
        (s : k.World × Pv)
        → lock_frame.Safe s.0
        → s.1.name ≡ v.name
        → Gives (λ found t. (found ≡ true) × (t.1 ≡ v)) (λ _. Unit {0}) (k.load_pv s)
    pub load_pv-name : (s : k.World × Pv) → (k.load_pv s).1.1.name ≡ s.1.name
    pub load_pvc-same :
        (s t : k.World × Pvc)
        → lock_frame.Safe s.0
        → k.load_pvc s ≡ (ok true, t)
        → t.1.metadata.uid ≡ c.metadata.uid
        → t.1 ≡ c
    pub new_volume-Other : (u : Pv) → OtherVolume u.name → OtherVolume (new_volume k u none).name
