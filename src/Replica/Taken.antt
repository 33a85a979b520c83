-- ===== src/Replica/Taken.antt =====
-- What Load of a replica (pkg/controller/app/pool_replica.go) makes of a volume that a checkout has
-- locked.
use pvpool.Prelude.{
  ◌≡◌, refl, sym, ap, subst, ◌∙◌, String, Bool, true, false, ◌==◌, eq_iff, Option, none, some,
  Bool-cases, Option-cases, inl, inr,
}
use pvpool.Prelude.Members.{some-eq}
use pvpool.Exec.{Outcome, ok, err, panic, timeout, continue}
use pvpool.Exec.Rules.{Gives, Gives-bind}
use pvpool.Api.Core.{Key, ObjectReference, Pvc, Pv, Job}
use pvpool.Api.State.{PoolReplica}
use pvpool.Kube.{Kube}
use pvpool.Kube.Store.{Store}
use pvpool.Kube.Frame.{ReadLaws, ClaimLaws}
use pvpool.Kube.Lock.{Uids, lock_frame, LockLaws}
use pvpool.CheckoutState.Load.{refers_to}
use pvpool.Replica.{load, on_claim, on_job, use_volume, load_volume, new_replica}
use pvpool.Replica.Phase.{is_bound}

pub refers-eq :
    (a b : String) (o : Option ObjectReference)
    → refers_to a o ≡ true
    → refers_to b o ≡ true
    → a ≡ b
refers-eq a b none h g = absurd (cc)
refers-eq a b (some ref) h g = sym ((eq_iff ref.uid a).0 h) ∙ (eq_iff ref.uid b).0 g

module _ (k : Kube) (st : Store k) (ids : Uids k) (owner : String) (c : Pvc) (v : Pv) where
  abbrev Hold : k.World → Type 0
  Hold = (lock_frame k st ids owner c v).Safe

  -- If the replica has the volume it has the claim too.
  abbrev pub WithClaim : PoolReplica → Type 0
  WithClaim r = (u : Pv) → r.volume ≡ some u → u.name ≡ v.name → r.claim ≡ c

  -- The replica's claim, where it has the uid of the claim.
  abbrev Known : Pvc → Type 0
  Known d = d.metadata.uid ≡ c.metadata.uid → d ≡ c

  abbrev Blank : k.World × PoolReplica → Type 0
  Blank s = Hold s.0 × (s.1.volume ≡ none)

  blank-WithClaim : (r : PoolReplica) → r.volume ≡ none → WithClaim r
  blank-WithClaim r e u e' = absurd (cc)

  module _ (lock : LockLaws k st ids owner c v) (reads : ReadLaws k (lock_frame k st ids owner c v))
      (claims : ClaimLaws k (lock_frame k st ids owner c v))
      (refers : refers_to c.metadata.uid v.spec.claim_ref ≡ true) where
    abbrev Result : Bool → k.World × PoolReplica → Type 0
    Result _ s = Hold s.0 × WithClaim s.1

    abbrev Lost : k.World × PoolReplica → Type 0
    Lost _ = Unit {0}

    use_volume-WithClaim :
        (u : Pv) (found : Bool) (s : k.World × PoolReplica)
        → Blank s
        → Known s.1.claim
        → (found ≡ true → u.name ≡ v.name → u ≡ v)
        → Gives Result Lost (use_volume k u found s)
    use_volume-WithClaim u false s h known is = (h.0, blank-WithClaim s.1 h.1)
    use_volume-WithClaim u true s h known is = elim (Option-cases u.spec.claim_ref) [
      | inl missing ↦ rw missing tt
      | inr (ref, e) ↦ elim (Bool-cases (ref.uid == s.1.claim.metadata.uid)) [
        | inr differs ↦ rw (e, differs) (h.0, blank-WithClaim s.1 h.1)
        | inl same ↦
            rw (e, same)
              (
                h.0,
                λ x ex name.
                    let named : u.name ≡ v.name = ap (λ y. y.name) (some-eq ex) ∙ name in
                    let back : refers_to s.1.claim.metadata.uid v.spec.claim_ref ≡ true =
                      subst (λ y. refers_to s.1.claim.metadata.uid y.spec.claim_ref ≡ true)
                        (is refl named) (rw e same) in
                    known (
                      refers-eq s.1.claim.metadata.uid c.metadata.uid v.spec.claim_ref back refers),
              )
      ]
    ]

    load_volume-WithClaim :
        (s : k.World × PoolReplica)
        → Blank s
        → Known s.1.claim
        → Gives Result Lost (load_volume k s)
    load_volume-WithClaim s h known =
        go (k.load_pv (s.0, asked)) (reads.load_pv-Safe (s.0, asked) h.0)
          (λ name. lock.load_pv-same (s.0, asked) h.0 name) (lock.load_pv-name (s.0, asked))
      where
        asked : Pv
        asked = k.new_pv s.1.claim.spec.volume_name

        go :
            (d : Outcome k.Error Bool × (k.World × Pv))
            → Hold d.1.0
            → (asked.name ≡ v.name
                → Gives (λ found t. (found ≡ true) × (t.1 ≡ v)) (λ _. Unit {0}) d)
            → d.1.1.name ≡ asked.name
            → Gives Result Lost
                (continue {S = k.World × PoolReplica} d.0 (use_volume k d.1.1) (d.1.0, s.1))
        go (ok found, t) hold is name =
            use_volume-WithClaim t.1 found (t.0, s.1) (hold, h.1) known
              λ _ named. (is (sym name ∙ named)).1
        go (err e, t) hold is name = tt
        go (panic, t) hold is name = tt
        go (timeout, t) hold is name = tt

    load_pvc-Known :
        (s : k.World × PoolReplica)
        → Blank s
        → Gives
            (λ found t. Blank t × (found ≡ true → Known t.1.claim))
            Lost
            (on_claim k k.load_pvc s)
    load_pvc-Known s h =
        go (k.load_pvc (s.0, s.1.claim)) refl (claims.load_pvc-Safe (s.0, s.1.claim) h.0)
      where
        go :
            (d : Outcome k.Error Bool × (k.World × Pvc))
            → k.load_pvc (s.0, s.1.claim) ≡ d
            → Hold d.1.0
            → Gives
                (λ found t. Blank t × (found ≡ true → Known t.1.claim))
                Lost
                (d.0, (d.1.0, record s.1 { claim = d.1.1 }))
        go (ok true, t) e hold = ((hold, h.1), λ _. lock.load_pvc-same (s.0, s.1.claim) t h.0 e)
        go (ok false, t) e hold = ((hold, h.1), λ no. absurd (cc))
        go (err x, t) e hold = tt
        go (panic, t) e hold = tt
        go (timeout, t) e hold = tt

    load_job-Blank :
        (s : k.World × PoolReplica) → Blank s → Gives (λ _. Blank) Lost (on_job k k.load_job s)
    load_job-Blank s h =
        go (k.load_job (s.0, s.1.init_job)) (reads.load_job-Safe (s.0, s.1.init_job) h.0)
      where
        go :
            (d : Outcome k.Error Bool × (k.World × Job))
            → Hold d.1.0
            → Gives (λ _. Blank) Lost (d.0, (d.1.0, record s.1 { init_job = d.1.1 }))
        go (ok b, t) hold = (hold, h.1)
        go (err e, t) hold = tt
        go (panic, t) hold = tt
        go (timeout, t) hold = tt

    -- A replica that is loaded with the volume that a claim holds has that claim.
    pub load-WithClaim :
        (key : Key) (w : k.World) → Hold w → Gives Result Lost (load k (w, new_replica k key))
    unfolding load new_replica
    load-WithClaim key w hold =
        Gives-bind (λ _. Blank) Result Lost (on_job k k.load_job) _ (w, new_replica k key)
          (load_job-Blank (w, new_replica k key) (hold, refl))
          λ _ t ht.
            Gives-bind (λ found u. Blank u × (found ≡ true → Known u.1.claim)) Result Lost
              (on_claim k k.load_pvc) _ t (load_pvc-Known t ht)
              λ found u hu. elim (Bool-cases found) [
                | inr gone ↦ rw gone (hu.0.0, blank-WithClaim u.1 hu.0.1)
                | inl there ↦ elim (Bool-cases (is_bound u.1.claim.phase)) [
                  | inr loose ↦ rw (there, loose) (hu.0.0, blank-WithClaim u.1 hu.0.1)
                  | inl bound ↦ rw (there, bound) (load_volume-WithClaim u hu.0 (hu.1 there))
                ]
              ]
