-- ===== src/Tests/Locks.antt =====
-- A checkout that has locked a volume of the small API server, which keeps uids apart.
use pvpool.Prelude.{
  ◌≡◌, refl, sym, subst, ◌∙◌, String, Bool, false, not, ◌&&◌, ◌==◌, ◌∷◌, All, eq_iff, if◌then◌else◌,
  Bool-cases, inl, inr,
}
use pvpool.Exec.{err}
use pvpool.Api.Core.{Key, empty_meta, Pvc, Pv}
use pvpool.Kube.{Kube}
use pvpool.Kube.Laws.{SortLaws}
use pvpool.Kube.Store.{Store, StoreLaws}
use pvpool.Kube.Lock.{Uids, lock_frame, OtherVolume}
use pvpool.Kube.Frame.{Frame, ReadLaws, ClaimLaws, VolumeLaws}
use pvpool.CheckoutState.Persist.{with_uid}
use pvpool.Tests.Cluster.{Cluster, toy, blank_pvc, is_key, is_claimed, controlled_by, remove}
use pvpool.Tests.Laws.{toy-SortLaws, find-remove, All-remove}
use pvpool.Tests.Frames.{world-found_or, key_eq, key-found_or}
use pvpool.Tests.Stores.{store, toy-StoreLaws, is_key_refl}
use pvpool.Tests.Pools.{key_of, volume_a}

abbrev locked_key : Key
locked_key = key_of "my-locked"

-- It refuses the locked claim's uid under another key.
abbrev is_refused : Pvc → Bool
is_refused c = c.metadata.uid == "locked-uid" && not (is_key c.key locked_key)

abbrev pub strict : Kube
strict = record toy {
  persist_pvc = λ s. if is_refused s.1 then (err "conflict", s) else toy.persist_pvc s;
  meta_name_suffixed = λ name suffix. if name == "pvpool" then "pvpool-new" else suffix;
}

abbrev pub strict_store : Store strict
strict_store = record { HasClaim = store.HasClaim; HasVolume = store.HasVolume }

pub strict-StoreLaws : StoreLaws strict strict_store
strict-StoreLaws = record {
  new_pv-name = toy-StoreLaws.new_pv-name;
  checkout_owns-Controls = toy-StoreLaws.checkout_owns-Controls;
  persist_pvc-HasClaim = λ s. elim (Bool-cases (is_refused s.1)) [
    | inl bad ↦ rw bad tt
    | inr good ↦ rw (good, is_key_refl s.1.key) (refl, refl, refl)
  ];
  persist_pv-HasVolume = toy-StoreLaws.persist_pv-HasVolume;
  persist_pv-HasClaim = toy-StoreLaws.persist_pv-HasClaim;
  load_pvc-HasClaim = toy-StoreLaws.load_pvc-HasClaim;
  load_pv-HasVolume = toy-StoreLaws.load_pv-HasVolume;
}

-- The checkout's locked claim and the volume that it locks, before and after they are written.
abbrev pub locked_claim : Pvc
locked_claim = record (blank_pvc locked_key) {
  metadata = record empty_meta { uid = "locked-uid" };
  spec = record ((blank_pvc locked_key).spec) { volume_name = "vol-a" };
}

abbrev pub taken_claim : Pvc
taken_claim = controlled_by "owner-uid" locked_claim

abbrev pub taken_volume : Pv
taken_volume = with_uid "locked-uid" volume_a

abbrev pub IsTaken : Pvc → Type 0
IsTaken d = d.metadata.uid ≡ "locked-uid" → d ≡ taken_claim

abbrev pub NotOwner : String → Type 0
NotOwner uid = ¬ (uid ≡ "owner-uid")

abbrev pub uids : Uids strict
uids = record { Distinct = λ w. All IsTaken w.claims × All (λ p. NotOwner p.metadata.uid) w.pools }

abbrev pub locked_frame : Frame strict
locked_frame = lock_frame strict strict_store uids "owner-uid" taken_claim taken_volume

abbrev Locked : Cluster → Type 0
Locked = locked_frame.Safe

pub strict-ReadLaws : ReadLaws strict locked_frame
strict-ReadLaws = record {
  load_job-Safe = λ _ h. h;
  delete_job-Safe = λ _ _ h. h;
  set_dependency_of-Safe = λ _ _ h. h;
  load_pv-Safe = λ s h. subst Locked (sym (world-found_or _ s)) h;
  list_pvcs-Safe = λ _ _ _ h. h;
  new_rng-Safe = λ _ h. h;
  uint64_n-Safe = λ _ _ _ h. h;
  record_event-Safe = λ _ _ h. h;
  load_pool-Safe = λ s h. subst Locked (sym (world-found_or _ s)) h;
  update_pool_status-Safe = λ _ h. h;
}

key_ne : (a b : Key) → ¬ (a ≡ b) → is_key a b ≡ false
key_ne a b ne = elim (Bool-cases (is_key a b)) [
  | inl same ↦ absurd (ne (key_eq a b same))
  | inr other ↦ other
]

other_name : (name : String) → ¬ (name ≡ "vol-a") → (name == "vol-a") ≡ false
other_name name ne = elim (Bool-cases (name == "vol-a")) [
  | inl same ↦ absurd (ne ((eq_iff name "vol-a").0 same))
  | inr other ↦ other
]

-- Writing under another key, and deleting there.
written-Locked :
    (s : Cluster × Pvc)
    → is_refused s.1 ≡ false
    → ¬ (s.1.key ≡ locked_key)
    → Locked s.0
    → Locked (record s.0 { claims = s.1 ∷ s.0.claims })
written-Locked s good ne h =
    let apart : is_key s.1.key locked_key ≡ false = key_ne s.1.key locked_key ne in
    let fresh : IsTaken s.1 =
      λ uid. absurd (cc ((eq_iff s.1.metadata.uid "locked-uid").1 uid, apart, good)) in
    (((fresh, h.0.0), h.0.1), rw apart h.1, h.2)

deleted-Locked :
    (w : Cluster) (key : Key)
    → ¬ (key ≡ locked_key)
    → Locked w
    → Locked (record w { claims = remove (λ d. is_key d.key key) w.claims })
deleted-Locked w key ne h = (
  (All-remove IsTaken (λ d. is_key d.key key) w.claims h.0.0, h.0.1),
  find-remove (λ d. is_key d.key locked_key) (λ d. is_key d.key key) w.claims
        (λ d gone. key_ne d.key locked_key (λ e. ne (sym (key_eq d.key key gone) ∙ e)))
      ∙ h.1,
  h.2,
)

pub strict-ClaimLaws : ClaimLaws strict locked_frame
strict-ClaimLaws = record {
  new_pvc-key = λ _. refl;
  label_annotate_pvc-key = λ _ _. refl;
  load_pvc-Safe = λ s h. subst Locked (sym (world-found_or _ s)) h;
  load_pvc-key = λ s. key-found_or s.0.claims s;
  pool_owns-Held = λ _ _ h. h;
  persist_pvc-Held = λ s h. elim (Bool-cases (is_refused s.1)) [
    | inl bad ↦ rw bad h
    | inr good ↦ rw good (written-Locked s good h.1 h.0, h.1)
  ];
  delete_pvc-Held = λ _ s h. (deleted-Locked s.0 s.1.key h.1 h.0, h.1);
  persist_owned-Held = λ _ h. h;
}

pub strict-VolumeLaws :
    VolumeLaws strict locked_frame
      (OtherVolume strict strict_store uids "owner-uid" taken_claim taken_volume)
strict-VolumeLaws = record {
  persist_pv-Safe = λ s ne h. (h.0, h.1, rw (other_name s.1.name ne) h.2);
  persist_pv-name = λ _. refl;
  delete_pv-Safe = λ _ s ne h. (
    h.0,
    h.1,
    find-remove (is_claimed "vol-a") (λ u. u.name == s.1.name) s.0.volumes
          (λ u gone.
            rw (other_name u.name (λ e. ne (sym ((eq_iff u.name s.1.name).0 gone) ∙ e))) refl)
        ∙ h.2,
  );
  delete_pv-name = λ _ _. refl;
}

pub strict-SortLaws : SortLaws strict
strict-SortLaws = record {
  sort-perm = toy-SortLaws.sort-perm;
  sort-IsSorted = toy-SortLaws.sort-IsSorted;
}
