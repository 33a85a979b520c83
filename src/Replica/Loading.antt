-- ===== src/Replica/Loading.antt =====
-- What Load of a replica finds.
use pvpool.Prelude.{
  ◌≡◌, refl, subst, Bool, true, false, some, ◌==◌, eq_iff, Bool-cases, Option-cases, inl, inr,
}
use pvpool.Exec.{Outcome, ok, err, panic, timeout, continue}
use pvpool.Exec.Rules.{bind_cases}
use pvpool.Api.Core.{Pv, ObjectReference}
use pvpool.Api.State.{PoolReplica}
use pvpool.Kube.{Kube}
use pvpool.Replica.{load, on_claim, on_job, use_volume, load_volume}
use pvpool.Replica.Phase.{is_bound}

-- A replica whose claim is not bound, or one with a volume that refers back to its claim.
pub data IsLoaded (r : PoolReplica) : Type 0 where
  loose : is_bound r.claim.phase ≡ false → IsLoaded r
  cross_referenced :
      (v : Pv) (ref : ObjectReference)
      → r.volume ≡ some v
      → v.spec.claim_ref ≡ some ref
      → ref.uid ≡ r.claim.metadata.uid
      → IsLoaded r

module _ (k : Kube) where
  abbrev Run : Type 0
  Run = Outcome k.Error Bool × (k.World × PoolReplica)

  -- What holds of a run if it says that it succeeded.
  abbrev LoadedIfTrue : Run → Type 0
  LoadedIfTrue (ok true, s) = IsLoaded s.1
  LoadedIfTrue _ = Unit {0}

  use_volume-LoadedIfTrue :
      (v : Pv) (found : Bool) (s : k.World × PoolReplica) → LoadedIfTrue (use_volume k v found s)
  use_volume-LoadedIfTrue v false s = tt
  use_volume-LoadedIfTrue v true s = elim (Option-cases v.spec.claim_ref) [
    | inl missing ↦ rw missing tt
    | inr (ref, e) ↦ elim (Bool-cases (ref.uid == s.1.claim.metadata.uid)) [
      | inl same ↦
          rw (e, same)
            (cross_referenced (record v { spec = record (v.spec) { claim_ref = some ref } }) ref
              refl refl ((eq_iff ref.uid s.1.claim.metadata.uid).0 same))
      | inr differs ↦ rw (e, differs) tt
    ]
  ]

  load_volume-LoadedIfTrue : (s : k.World × PoolReplica) → LoadedIfTrue (load_volume k s)
  load_volume-LoadedIfTrue s = go (k.load_pv (s.0, k.new_pv s.1.claim.spec.volume_name))
    where
      go :
          (d : Outcome k.Error Bool × (k.World × Pv))
          → LoadedIfTrue
              (continue {S = k.World × PoolReplica} d.0 (use_volume k d.1.1) (d.1.0, s.1))
      go (ok found, t) = use_volume-LoadedIfTrue t.1 found (t.0, s.1)
      go (err e, t) = tt
      go (panic, t) = tt
      go (timeout, t) = tt

  -- When Load of a replica says that it succeeded, either the claim is not bound, or the replica has
  -- a volume whose reference to a claim carries the claim's uid.
  pub load-IsLoaded : (s s' : k.World × PoolReplica) → load k s ≡ (ok true, s') → IsLoaded s'.1
  unfolding load
  load-IsLoaded s s' h = subst LoadedIfTrue h (
      bind_cases LoadedIfTrue (on_job k k.load_job) _ s
        (λ _ s1 _.
          bind_cases LoadedIfTrue (on_claim k k.load_pvc) _ s1
            (λ found s2 _. elim (Bool-cases found) [
              | inr gone ↦ rw gone tt
              | inl there ↦ elim (Bool-cases (is_bound s2.1.claim.phase)) [
                | inl placed ↦ rw (there, placed) (load_volume-LoadedIfTrue s2)
                | inr free ↦ rw (there, free) (loose free)
              ]
            ])
            (λ _ _ _. tt) (λ _ _. tt) (λ _ _. tt))
        (λ _ _ _. tt) (λ _ _. tt) (λ _ _. tt))
