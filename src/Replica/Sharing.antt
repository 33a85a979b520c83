-- ===== src/Replica/Sharing.antt =====
-- The volumes of init jobs as ConfigurePoolReplica (pkg/controller/app/pool_replica.go) really keeps
-- them: the copy of the template's spec shares the array of its Volumes with the template.
pub mod Views
pub mod LastWins
use pvpool.Prelude.{
  ℕ, zero, suc, ◌+◌, String, Option, none, some, List, [], ◌∷◌, ◌++◌, if◌then◌else◌, length, take,
  set, ltb,
}
use pvpool.Api.Core.{Volume}
use pvpool.Replica.Jobs.{index_volume_by_name, set_claim_at}

-- Arrays by their addresses; `next` is the first address that is free. An array is as long as its
-- slices' capacity.
pub record Memory : Type 0 where
  pub arrays : ℕ → List Volume
  pub next : ℕ

-- A slice from the start of an array.
pub record Slice : Type 0 where
  pub array : ℕ
  pub len : ℕ

abbrev same_address : ℕ → ℕ → List Volume → List Volume → List Volume
same_address a b x y = if ltb a b then y else if ltb b a then y else x

-- The memory with another array at an address.
abbrev pub store : ℕ → List Volume → Memory → Memory
store a vols m = record m { arrays = λ b. same_address a b vols (m.arrays b) }

-- The elements of a slice.
abbrev pub view : Memory → Slice → List Volume
view m s = take s.len (m.arrays s.array)

abbrev pub new_volume : String → Volume
new_volume name = record { name = name; claim_name = none; rest = [] }

-- `append(s, v)`: in place if there is room, or else in a new array, which has some room left over.
abbrev pub append : (ℕ → List Volume) → Slice → Volume → Memory → Slice × Memory
append room s v m =
    if ltb s.len (length (m.arrays s.array))
    then (record s { len = suc s.len }, store s.array (set (m.arrays s.array) s.len v) m)
    else (
      record { array = m.next; len = suc s.len },
      record (store m.next (view m s ++ v ∷ room s.len) m) { next = suc m.next },
    )

-- `s[i].PersistentVolumeClaim = …`
abbrev pub write_claim : ℕ → String → Slice → Memory → Memory
write_claim i claim s m = store s.array (set_claim_at i claim (m.arrays s.array)) m

abbrev pub mount_at :
    (ℕ → List Volume) → Option ℕ → String → String → Slice → Memory → Slice × Memory
mount_at room none name claim s m =
    let (t, n) = append room s (new_volume name) m in (t, write_claim s.len claim t n)
mount_at room (some i) name claim s m = (s, write_claim i claim s m)

-- What ConfigurePoolReplica does with the volumes of a job, whose slice is the template's.
unfoldable pub mount_shared : (ℕ → List Volume) → String → String → Slice → Memory → Slice × Memory
mount_shared room name claim s m =
    mount_at room (index_volume_by_name (view m s) name) name claim s m

-- The jobs of several claims, configured one after the other from one template, as
-- ConfigurePoolState does.
unfoldable pub mount_all :
    (ℕ → List Volume) → String → List String → Slice → Memory → List Slice × Memory
mount_all room name [] s m = ([], m)
mount_all room name (claim ∷ claims) s m =
    let (t, n) = mount_shared room name claim s m in
    let (ts, n') = mount_all room name claims s n in (t ∷ ts, n')
