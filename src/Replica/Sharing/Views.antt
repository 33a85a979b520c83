-- ===== src/Replica/Sharing/Views.antt =====
-- What one job's volumes look like, right after they were set up.
use pvpool.Prelude.{
  ℕ, zero, suc, ◌≤◌, ◌<◌, ◌≡◌, refl, sym, ap, ◌∙◌, String, some, List, [], ◌∷◌, ◌++◌, arith, length,
  take, set, ltb, Bool-cases, Option-cases, inl, inr,
}
use pvpool.Api.Core.{Volume}
use pvpool.Replica.Jobs.{index_volume_by_name, set_claim_at, mount_claim}
use pvpool.Replica.Sharing.{
  Memory, Slice, store, view, new_volume, append, write_claim, mount_shared,
}

pub store_self : (a : ℕ) (vols : List Volume) (m : Memory) → (store a vols m).arrays a ≡ vols
store_self a vols m = ground arith

pub store_other :
    (a b : ℕ) (vols : List Volume) (m : Memory) → b < a → (store a vols m).arrays b ≡ m.arrays b
store_other a b vols m h = ground arith

pub take-set_claim_at :
    (n i : ℕ) (claim : String) (vols : List Volume)
    → take n (set_claim_at i claim vols) ≡ set_claim_at i claim (take n vols)
unfolding set_claim_at
take-set_claim_at zero i claim vols = refl
take-set_claim_at (suc n) i claim [] = refl
take-set_claim_at (suc n) zero claim (v ∷ vols) = refl
take-set_claim_at (suc n) (suc i) claim (v ∷ vols) =
    ap (λ l. v ∷ l) (take-set_claim_at n i claim vols)

take-set_at :
    (n : ℕ) (v : Volume) (vols : List Volume)
    → n < length vols
    → take (suc n) (set vols n v) ≡ take n vols ++ v ∷ []
take-set_at n v [] h = absurd (omega arith)
take-set_at zero v (w ∷ vols) h = refl
take-set_at (suc n) v (w ∷ vols) h = ap (λ l. w ∷ l) (take-set_at n v vols (omega arith))

take-append_length :
    (xs : List Volume) (v : Volume) (ys : List Volume)
    → take (suc (length xs)) (xs ++ v ∷ ys) ≡ xs ++ v ∷ []
take-append_length [] v ys = refl
take-append_length (x ∷ xs) v ys = ap (λ l. x ∷ l) (take-append_length xs v ys)

pub length-take : (n : ℕ) (vols : List Volume) → n ≤ length vols → length (take n vols) ≡ n
length-take zero vols h = refl
length-take (suc n) [] h = absurd (omega arith)
length-take (suc n) (v ∷ vols) h = omega (arith, length-take n vols)

pub mount_claim_there :
    (vols : List Volume) (name claim : String) (i : ℕ)
    → index_volume_by_name vols name ≡ some i
    → mount_claim vols name claim ≡ set_claim_at i claim vols
unfolding mount_claim
mount_claim_there vols name claim i h = rw (h, mount_claim)

pub view-write_claim :
    (i : ℕ) (claim : String) (s : Slice) (m : Memory)
    → view (write_claim i claim s m) s ≡ set_claim_at i claim (view m s)
view-write_claim i claim s m =
    rw (store_self s.array (set_claim_at i claim (m.arrays s.array)) m)
      (take-set_claim_at s.len i claim (m.arrays s.array))

module _ (room : ℕ → List Volume) where
  view-append :
      (s : Slice) (v : Volume) (m : Memory)
      → s.len ≤ length (m.arrays s.array)
      → let (t, n) = append room s v m in view n t ≡ view m s ++ v ∷ []
  view-append s v m fits = elim (Bool-cases (ltb s.len (length (m.arrays s.array)))) [
    | inl inside ↦
        rw (inside, store_self s.array (set (m.arrays s.array) s.len v) m)
          (take-set_at s.len v (m.arrays s.array) (ground arith))
    | inr full ↦
        rw (full, store_self m.next (view m s ++ v ∷ room s.len) m)
          (rw (length-take s.len (m.arrays s.array) fits) at
            (take-append_length (view m s) v (room s.len)))
  ]

  -- Right after one job is set up, its volumes are those that a job with an array of its own gets:
  -- the template's, with the claim mounted, whether or not an append finds room in the array.
  pub view-mount_shared :
      (name claim : String) (s : Slice) (m : Memory)
      → s.len ≤ length (m.arrays s.array)
      → let (t, n) = mount_shared room name claim s m in
        view n t ≡ mount_claim (view m s) name claim
  unfolding mount_shared mount_claim
  view-mount_shared name claim s m fits =
      elim (Option-cases (index_volume_by_name (view m s) name)) [
        | inr (i, there) ↦ rw (there, mount_claim) (view-write_claim i claim s m)
        | inl absent ↦
            let (t, n) = append room s (new_volume name) m in
            rw (absent, mount_claim)
              (view-write_claim s.len claim t n
                ∙ ap (set_claim_at s.len claim) (view-append s (new_volume name) m fits)
                ∙ ap (λ l. set_claim_at l claim (view m s ++ new_volume name ∷ []))
                    (sym (length-take s.len (m.arrays s.array) fits)))
      ]
