-- ===== src/Replica/Found.antt =====
-- Which claim Load of a replica (pkg/controller/app/pool_replica.go) finds, and which one
-- ApplyPoolReplica writes.
use pvpool.Prelude.{
  arith, ◌≡◌, refl, sym, subst, ◌∙◌, String, Bool, true, false, ◌==◌, [], ◌∷◌, Bool-cases,
  Option-cases, inl, inr,
}
use pvpool.Exec.{Outcome, ok, err, panic, timeout, continue}
use pvpool.Exec.Rules.{Gives, Gives-bind, Gives-always, Gives-imp}
use pvpool.Api.Core.{Key, Pvc, Pv}
use pvpool.Api.Resources.{Pool}
use pvpool.Api.State.{PoolReplica}
use pvpool.Kube.{Kube, text}
use pvpool.Kube.Frame.{Frame, Owns, ReadLaws, ClaimLaws}
use pvpool.Replica.{
  load, persist, on_claim, on_job, use_volume, load_volume, new_replica, apply_replica,
}
use pvpool.Replica.Configure.{configure, provision, prepare_job, annotate_phase}
use pvpool.Replica.Phase.{is_bound}
use pvpool.Replica.Owned.{ReplicaHeld, persist-ReplicaHeld}

module _ (k : Kube) (f : Frame k) (reads : ReadLaws k f) (claims : ClaimLaws k f) where
  -- The server has just given the claim out.
  pub record IsServed (c : Pvc) : Type 0 where
    pub before : k.World × Pvc
    pub after : k.World × Pvc
    pub is_safe : f.Safe before.0
    pub is_loaded : k.load_pvc before ≡ (ok true, after)
    pub same_claim : after.1 ≡ c

  abbrev pub SafeAt : Key → k.World × PoolReplica → Type 0
  SafeAt key s = f.Safe s.0 × (s.1.claim.key ≡ key)

  abbrev pub FoundAt : Key → Bool → k.World × PoolReplica → Type 0
  FoundAt key found s = SafeAt key s × (found ≡ true → IsServed s.1.claim)

  use_volume-FoundAt :
      (key : Key) (v : Pv) (found : Bool) (s : k.World × PoolReplica)
      → SafeAt key s
      → IsServed s.1.claim
      → Gives (FoundAt key) (SafeAt key) (use_volume k v found s)
  use_volume-FoundAt key v false s h served = (h, λ _. served)
  use_volume-FoundAt key v true s h served = elim (Option-cases v.spec.claim_ref) [
    | inl missing ↦ rw missing h
    | inr (ref, e) ↦ elim (Bool-cases (ref.uid == s.1.claim.metadata.uid)) [
      | inl same ↦ rw (e, same) (h, λ _. served)
      | inr differs ↦ rw (e, differs) (h, λ _. served)
    ]
  ]

  load_volume-FoundAt :
      (key : Key) (s : k.World × PoolReplica)
      → SafeAt key s
      → IsServed s.1.claim
      → Gives (FoundAt key) (SafeAt key) (load_volume k s)
  load_volume-FoundAt key s h served =
      go (k.load_pv (s.0, k.new_pv s.1.claim.spec.volume_name))
        (reads.load_pv-Safe (s.0, k.new_pv s.1.claim.spec.volume_name) h.0)
    where
      go :
          (d : Outcome k.Error Bool × (k.World × Pv))
          → f.Safe d.1.0
          → Gives
              (FoundAt key)
              (SafeAt key)
              (continue {S = k.World × PoolReplica} d.0 (use_volume k d.1.1) (d.1.0, s.1))
      go (ok found, t) safe = use_volume-FoundAt key t.1 found (t.0, s.1) (safe, h.1) served
      go (err e, t) safe = (safe, h.1)
      go (panic, t) safe = (safe, h.1)
      go (timeout, t) safe = (safe, h.1)

  load_pvc-FoundAt :
      (key : Key) (s : k.World × PoolReplica)
      → SafeAt key s
      → Gives (FoundAt key) (SafeAt key) (on_claim k k.load_pvc s)
  load_pvc-FoundAt key s h =
      go (k.load_pvc (s.0, s.1.claim)) refl (claims.load_pvc-Safe (s.0, s.1.claim) h.0)
        (claims.load_pvc-key (s.0, s.1.claim) ∙ h.1)
    where
      go :
          (d : Outcome k.Error Bool × (k.World × Pvc))
          → k.load_pvc (s.0, s.1.claim) ≡ d
          → f.Safe d.1.0
          → d.1.1.key ≡ key
          → Gives (FoundAt key) (SafeAt key) (d.0, (d.1.0, record s.1 { claim = d.1.1 }))
      go (ok true, t) e safe same = (
        (safe, same),
        λ _. record {
          before = (s.0, s.1.claim);
          after = t;
          is_safe = h.0;
          is_loaded = e;
          same_claim = refl;
        },
      )
      go (ok false, t) e safe same = ((safe, same), λ no. absurd (cc))
      go (err x, t) e safe same = (safe, same)
      go (panic, t) e safe same = (safe, same)
      go (timeout, t) e safe same = (safe, same)

  pub load-FoundAt :
      (key : Key) (s : k.World × PoolReplica)
      → SafeAt key s
      → Gives (FoundAt key) (SafeAt key) (load k s)
  unfolding load
  load-FoundAt key s h =
      Gives-bind (λ _. SafeAt key) (FoundAt key) (SafeAt key) (on_job k k.load_job) _ s
        (Gives-always (SafeAt key) (on_job k k.load_job s)
          (reads.load_job-Safe (s.0, s.1.init_job) h.0, h.1))
        λ _ t ht.
          Gives-bind (FoundAt key) (FoundAt key) (SafeAt key) (on_claim k k.load_pvc) _ t
            (load_pvc-FoundAt key t ht)
            λ found u hu. elim (Bool-cases found) [
              | inr gone ↦ rw gone (hu.0, λ no. absurd (cc))
              | inl there ↦ elim (Bool-cases (is_bound u.1.claim.phase)) [
                | inr loose ↦ rw (there, loose) (hu.0, λ _. hu.1 there)
                | inl bound ↦ rw (there, bound) (load_volume-FoundAt key u hu.0 (hu.1 there))
              ]
            ]

  pub configure-key : (pool : Pool) (r : PoolReplica) → (configure k pool r).claim.key ≡ r.claim.key
  unfolding configure provision prepare_job annotate_phase
  configure-key pool r = ground arith

  -- ApplyPoolReplica writes the claim of its id only, and gives that one back.
  pub apply_replica-Owns :
      (pool : Pool) (id : String) (w : k.World)
      → f.Safe w
      → f.Own (record {
        namespace = pool.key.namespace;
        name = k.meta_name_suffixed pool.key.name (k.sprintf "-%s" (text id ∷ []));
      })
      → Gives (λ r t. f.Safe t × Owns k f r) f.Safe (apply_replica k pool id w)
  unfolding apply_replica new_replica
  apply_replica-Owns pool id w safe own =
      let key : Key = record {
        namespace = pool.key.namespace;
        name = k.meta_name_suffixed pool.key.name (k.sprintf "-%s" (text id ∷ []));
      } in
      result _ (
        Gives-bind (λ _. SafeAt key) (λ r t. f.Safe t.0 × Owns k f r) (λ t. f.Safe t.0) (load k) _
          (w, new_replica k key)
          (Gives-imp (FoundAt key) (λ _. SafeAt key) (SafeAt key) (λ t. f.Safe t.0) _ (λ _ _ h. h.0)
            (λ _ h. h.0) (load-FoundAt key (w, new_replica k key) (safe, claims.new_pvc-key key)))
          λ _ t ht.
            let t1 : k.World × PoolReplica = (t.0, configure k pool t.1) in
            let held : ReplicaHeld k f t1 =
              (ht.0, subst f.Own (sym (configure-key pool t.1 ∙ ht.1)) own) in
            Gives-bind (λ _. ReplicaHeld k f) (λ r u. f.Safe u.0 × Owns k f r) (λ u. f.Safe u.0)
              (persist k pool) _ t1
              (Gives-imp (λ _. ReplicaHeld k f) (λ _. ReplicaHeld k f) (ReplicaHeld k f)
                (λ u. f.Safe u.0) _ (λ _ _ h. h) (λ _ h. h.0)
                (Gives-always (ReplicaHeld k f) (persist k pool t1)
                  (persist-ReplicaHeld k f reads claims pool t1 held)))
              λ _ u hu. hu)
    where
      result :
          (d : Outcome k.Error PoolReplica × (k.World × PoolReplica))
          → Gives (λ r t. f.Safe t.0 × Owns k f r) (λ t. f.Safe t.0) d
          → Gives (λ r t. f.Safe t × Owns k f r) f.Safe (d.0, d.1.0)
      result (ok r, t) h = h
      result (err e, t) h = h
      result (panic, t) h = h
      result (timeout, t) h = h
