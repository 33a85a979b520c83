-- ===== src/CheckoutState/Configure.antt =====
-- ConfigureCheckoutState of pkg/controller/app/checkout_state.go. Its error is always nil.
use Prim.Native.String.{◌++◌ as append}
use pvpool.Prelude.{
  String, Bool, false, Option, none, some, List, [], ◌∷◌, ◌==◌, if◌then◌else◌, is_some, lookup,
  text_at,
}
use pvpool.Api.Core.{AccessMode, ObjectReference, CsiSource, Pvc, PvcSpec, Pv}
use pvpool.Api.State.{CheckoutState}
use pvpool.Kube.{Kube}
use pvpool.Replica.Phase.{is_bound}

abbrev pub reclaim_key : String
reclaim_key = "pvpool.puppet.com/checkout.reclaim-policy"

abbrev pub retain : String
retain = "Retain"

-- `len(modes) == 1 && modes[0] == ReadOnlyMany`
unfoldable pub only_reads : List AccessMode → Bool
only_reads [] = false
only_reads (m ∷ []) = m == "ReadOnlyMany"
only_reads (m ∷ n ∷ ms) = false

abbrev pub with_read_only : List AccessMode → Option CsiSource → Option CsiSource
with_read_only modes none = none
with_read_only modes (some csi) = some (record csi { read_only = only_reads modes })

module _ (k : Kube) where
  abbrev pub claim_reference : Pvc → ObjectReference
  claim_reference c = record {
    api_version = k.pvc_api_version;
    kind = k.pvc_kind;
    namespace = c.key.namespace;
    name = c.key.name;
    uid = c.metadata.uid;
  }

  -- Keeps the volume's reclaim policy in an annotation, unless one is there.
  unfoldable pub remember_policy : Pv → Pv
  remember_policy v =
      if is_some (lookup reclaim_key v.metadata.annotations)
      then v
      else record v { metadata = k.annotate v.metadata reclaim_key v.spec.reclaim_policy }

  -- The new volume, from the locked one `lv`.
  unfoldable pub copy_volume : List AccessMode → Pvc → Pv → Pv → Pv
  copy_volume modes claim lv v = record v {
    metadata = k.copy_labels_and_annotations v.metadata lv.metadata;
    spec = record (lv.spec) {
      access_modes = modes;
      claim_ref = some (claim_reference claim);
      reclaim_policy = text_at reclaim_key lv.metadata.annotations;
      csi = with_read_only modes lv.spec.csi;
    };
  }

  -- A claim's spec that points at a volume.
  unfoldable pub point_at : Pv → List AccessMode → PvcSpec → PvcSpec
  point_at v modes spec = record spec {
    storage_class_name = some v.spec.storage_class_name;
    volume_name = v.name;
    access_modes = modes;
    requests = ("storage", k.storage_of v.spec.capacity) ∷ [];
  }

  -- The locked volume refers to the locked claim and outlives it.
  unfoldable pub lock_volume : Pvc → Pv → Pv
  lock_volume claim lv = record lv {
    spec = record (lv.spec) { claim_ref = some (claim_reference claim); reclaim_policy = retain };
  }

  abbrev pub new_volume : Pv → Option Pv → Pv
  new_volume lv (some v) = v
  new_volume lv none = k.new_pv (k.meta_name_suffixed "pvpool" (append "-" lv.metadata.uid))

  -- The rest of the function, once there is a locked volume.
  unfoldable pub configure_from : Pv → CheckoutState → CheckoutState
  configure_from lv0 cs =
      let modes = cs.checkout.spec.access_modes in
      let lv = remember_policy lv0 in
      let v = copy_volume modes cs.claim lv (new_volume lv0 cs.volume) in
      let locked = lock_volume cs.locked_claim lv in
      record cs {
        volume = some v;
        claim = record (cs.claim) { spec = point_at v modes cs.claim.spec };
        locked_volume = some locked;
        locked_claim = record (cs.locked_claim) {
          spec = point_at locked locked.spec.access_modes cs.locked_claim.spec;
        };
      }

  abbrev pub configure_locked : Option Pv → CheckoutState → CheckoutState
  configure_locked none cs = cs
  configure_locked (some lv) cs = configure_from lv cs

  unfoldable pub configure_checkout_state : CheckoutState → CheckoutState
  configure_checkout_state cs =
      if is_bound cs.claim.phase then cs else configure_locked cs.locked_volume cs
