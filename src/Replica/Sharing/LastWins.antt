-- ===== src/Replica/Sharing/LastWins.antt =====
-- What several jobs' volumes look like after all of them were set up from one template.
use pvpool.Prelude.{
  ℕ, zero, suc, ◌≡◌, refl, sym, ap, ◌∙◌, subst, String, some, List, [], ◌∷◌, ◌++◌, Bool-cases, inl,
  inr, All, ◌==◌,
}
use pvpool.Api.Core.{Volume}
use pvpool.Replica.Jobs.{index_volume_from, index_volume_by_name, set_claim_at, mount_claim}
use pvpool.Replica.Sharing.{Memory, Slice, view, write_claim, mount_shared, mount_all}
use pvpool.Replica.Sharing.Views.{view-write_claim, mount_claim_there}

set_claim_at_twice :
    (i : ℕ) (old claim : String) (vols : List Volume)
    → set_claim_at i claim (set_claim_at i old vols) ≡ set_claim_at i claim vols
unfolding set_claim_at
set_claim_at_twice i old claim [] = refl
set_claim_at_twice zero old claim (v ∷ vols) = refl
set_claim_at_twice (suc i) old claim (v ∷ vols) =
    ap (λ l. v ∷ l) (set_claim_at_twice i old claim vols)

-- A write of a claim changes no name.
index-set_claim_at :
    (i j : ℕ) (claim : String) (vols : List Volume) (name : String)
    → index_volume_from j (set_claim_at i claim vols) name ≡ index_volume_from j vols name
unfolding index_volume_from set_claim_at
index-set_claim_at i j claim [] name = refl
index-set_claim_at zero j claim (v ∷ vols) name = refl
index-set_claim_at (suc i) j claim (v ∷ vols) name = elim (Bool-cases (v.name == name)) [
  | inl here ↦ rw here
  | inr there ↦ rw there (index-set_claim_at i (suc j) claim vols name)
]

module _ (room : ℕ → List Volume) (name : String) (s : Slice) (i : ℕ) where
  abbrev IsThere : Memory → Type 0
  IsThere m = index_volume_by_name (view m s) name ≡ some i

  IsThere-write_claim :
      (claim : String) (m : Memory) → IsThere m → IsThere (write_claim i claim s m)
  unfolding index_volume_by_name
  IsThere-write_claim claim m h =
      rw (view-write_claim i claim s m) (index-set_claim_at i 0 claim (view m s) name ∙ h)

  -- The volume is there, in the array that the template has.
  mount_shared_there :
      (claim : String) (m : Memory)
      → IsThere m
      → mount_shared room name claim s m ≡ (s, write_claim i claim s m)
  unfolding mount_shared
  mount_shared_there claim m h = rw h

  All-mount_all :
      (claims : List String) (m : Memory)
      → IsThere m
      → All (λ t. t ≡ s) (mount_all room name claims s m).0
  unfolding mount_all
  All-mount_all [] m h = tt
  All-mount_all (claim ∷ claims) m h =
      rw (mount_shared_there claim m h)
        (refl, All-mount_all claims (write_claim i claim s m) (IsThere-write_claim claim m h))

  view-mount_all :
      (claims : List String) (last : String) (m : Memory)
      → IsThere m
      → view (mount_all room name (claims ++ last ∷ []) s m).1 s ≡ set_claim_at i last (view m s)
  unfolding mount_all
  view-mount_all [] last m h = rw (mount_shared_there last m h) (view-write_claim i last s m)
  view-mount_all (claim ∷ claims) last m h =
      rw (mount_all, mount_shared_there claim m h)
        (view-mount_all claims last (write_claim i claim s m) (IsThere-write_claim claim m h)
          ∙ ap (set_claim_at i last) (view-write_claim i claim s m)
          ∙ set_claim_at_twice i claim last (view m s))

  All-share : (P : Slice → Type 0) (ts : List Slice) → All (λ t. t ≡ s) ts → P s → All P ts
  All-share P [] h p = tt
  All-share P (t ∷ ts) h p = (subst P (sym h.0) p, All-share P ts h.1 p)

  -- If the pool's template already has the volume by name, then after the jobs of several claims
  -- were set up from it one after the other, every one of these jobs mounts the last claim, and so
  -- does the template itself.
  pub mount_all_last :
      (claims : List String) (last : String) (m : Memory)
      → index_volume_by_name (view m s) name ≡ some i
      → let (jobs, n) = mount_all room name (claims ++ last ∷ []) s m in
        All (λ t. view n t ≡ mount_claim (view m s) name last) (s ∷ jobs)
  mount_all_last claims last m h =
      let (jobs, n) = mount_all room name (claims ++ last ∷ []) s m in
      let e : view n s ≡ mount_claim (view m s) name last =
        view-mount_all claims last m h ∙ sym (mount_claim_there (view m s) name last i h) in
      (
        e,
        All-share (λ t. view n t ≡ mount_claim (view m s) name last) jobs
            (All-mount_all (claims ++ last ∷ []) m h) e,
      )
