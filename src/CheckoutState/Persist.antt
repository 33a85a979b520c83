-- ===== src/CheckoutState/Persist.antt =====
-- Persist of pkg/controller/app/checkout_state.go.
use pvpool.Prelude.{String, Option, none, some, [], ◌∷◌, if◌then◌else◌}
use pvpool.Exec.{ok, err, panic, timeout, pure, raise, modify, gets, deref, catch, ◌>>=◌, ◌>>◌}
use pvpool.Api.Core.{Pv, is_true, is_false}
use pvpool.Api.Resources.{Condition}
use pvpool.Api.State.{CheckoutState}
use pvpool.Kube.{Kube, text, error, background, default}
use pvpool.Condition.{condition}
use pvpool.Replica.Phase.{is_bound}
use pvpool.CheckoutState.Pairs.{
  Pair, locked, final, claim_of, volume_of, put_volume, note_cond, Method, on_claim,
}
use pvpool.CheckoutState.Load.{tell}

abbrev pub checked_out : Condition
checked_out = condition is_true "CheckedOut" "The PVC is ready to use."

abbrev pub with_uid : String → Pv → Pv
with_uid uid v = record v {
  spec = record (v.spec) {
    claim_ref = elim v.spec.claim_ref [ none ↦ none | some ref ↦ some (record ref { uid = uid }) ];
  };
}

module _ (k : Kube) where
  abbrev pub invalid : Pair → k.Error → CheckoutState → Condition
  invalid p e cs = condition is_false "Invalid" (
      k.sprintf "The PVC %q could not be created because of configuration problems: %v"
        (text (claim_of p cs).key.name ∷ error e ∷ []))

  abbrev pub claim_failed : Pair → k.Error → Method k (Unit {0})
  claim_failed p e =
      if k.is_invalid e
      then (do modify (λ s. (s.0, note_cond (invalid p e s.1) s.1)); raise (k.mark_user e))
      else raise e

  abbrev pub missing_volume : Pair → Method k Pv
  missing_volume p = do
    cs ← gets (λ s. s.1)
    tell k "Warning" "VolumeAttachment"
        (k.sprintf "Volume for PVC %q could not be found" (text (claim_of p cs).key.name ∷ []))
    raise (k.mark_transient (k.errorf "missing persistent volume" []))

  abbrev pub need_volume : Pair → Option Pv → Method k Pv
  need_volume p none = missing_volume p
  need_volume p (some v) = pure v

  -- `pair.PersistentVolume.Persist(ctx, cl)`
  abbrev pub persist_volume : Pair → Pv → Method k (Unit {0})
  persist_volume p v (w, cs) =
      let (res, s) = k.persist_pv (w, v) in (res, (s.0, put_volume p (some s.1) cs))

  -- The loop's body of the default case.
  unfoldable pub persist_pair : Pair → Method k (Unit {0})
  persist_pair p = do
    checkout ← gets (λ s. s.1.checkout)
    on_claim k p (k.checkout_owns checkout)
    catch (on_claim k p k.persist_pvc) (claim_failed p)
    cs ← gets (λ s. s.1)
    v ← need_volume p (volume_of p cs)
    deref v.spec.claim_ref
    persist_volume p (with_uid (claim_of p cs).metadata.uid v)

  abbrev pub delete_locked_volume : Option Pv → Method k (Unit {0})
  delete_locked_volume none s = (ok tt, s)
  delete_locked_volume (some v) (w, cs) =
      let (res, s) = k.delete_pv background (w, v) in
      elim res [
        | ok _ ↦ (ok tt, (s.0, put_volume locked (some s.1) cs))
        | err e ↦ (err e, (s.0, put_volume locked (some s.1) cs))
        | panic ↦ (panic, (s.0, cs))
        | timeout ↦ (timeout, (s.0, cs))
      ]

  -- The case of a claim that is bound: what was locked is no longer needed.
  unfoldable pub release_locked : Method k (Unit {0})
  release_locked = do
    modify (λ s. (s.0, note_cond checked_out s.1))
    cs ← gets (λ s. s.1)
    delete_locked_volume cs.locked_volume
    on_claim k locked (k.delete_pvc default)
    pure tt

  unfoldable pub persist : Method k (Unit {0})
  persist = do
    cs ← gets (λ s. s.1)
    if is_bound cs.claim.phase then release_locked else (do persist_pair locked; persist_pair final)
