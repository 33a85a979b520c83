-- ===== src/Replica/Volumes.antt =====
-- The volumes of an init job.
use pvpool.Prelude.{
  ℕ, suc, ◌≡◌, refl, arith, eq_iff, Option, none, some, String, List, [], ◌∷◌, ◌==◌, if◌then◌else◌,
}
use pvpool.Api.Core.{Volume}
use pvpool.Replica.Jobs.{index_volume_from, mount_claim}

-- The first volume of a name.
abbrev pub find_volume : String → List Volume → Option Volume
find_volume name [] = none
find_volume name (v ∷ vols) = if v.name == name then some v else find_volume name vols

abbrev pub with_claim_name : String → Volume → Volume
with_claim_name claim v = record v { claim_name = some claim }

abbrev new_volume : String → Volume
new_volume name = record { name = name; claim_name = none; rest = [] }

abbrev pub found_or_new : String → List Volume → Volume
found_or_new name vols = elim (find_volume name vols) [ none ↦ new_volume name | some v ↦ v ]

-- A plain recursion with the effect of `mount_claim`.
mount : String → String → List Volume → List Volume
mount name claim [] = with_claim_name claim (new_volume name) ∷ []
mount name claim (v ∷ vols) =
    if v.name == name then with_claim_name claim v ∷ vols else v ∷ mount name claim vols

abbrev suc_opt : Option ℕ → Option ℕ
suc_opt none = none
suc_opt (some i) = some (suc i)

index_volume_from-suc :
    (i : ℕ) (vols : List Volume) (name : String)
    → index_volume_from (suc i) vols name ≡ suc_opt (index_volume_from i vols name)
unfolding index_volume_from
index_volume_from-suc i [] name = refl
index_volume_from-suc i (v ∷ vols) name = ground (arith, index_volume_from-suc (suc i) vols name)

mount_claim-eq-mount :
    (vols : List Volume) (name claim : String) → mount_claim vols name claim ≡ mount name claim vols
unfolding mount_claim index_volume_from mount
mount_claim-eq-mount [] name claim = refl
mount_claim-eq-mount (v ∷ vols) name claim =
    ground (arith, index_volume_from-suc 0 vols name, mount_claim-eq-mount vols name claim)

find_volume-mount :
    (vols : List Volume) (name claim j : String)
    → find_volume j (mount name claim vols) ≡ (
        if name == j
        then some (with_claim_name claim (found_or_new name vols))
        else find_volume j vols)
unfolding mount
find_volume-mount [] name claim j = refl
find_volume-mount (v ∷ vols) name claim j =
    ground (
      arith,
      eq_iff v.name name,
      eq_iff v.name j,
      eq_iff name j,
      find_volume-mount vols name claim j,
    )

pub find_volume-mount_claim :
    (vols : List Volume) (name claim j : String)
    → find_volume j (mount_claim vols name claim) ≡ (
        if name == j
        then some (with_claim_name claim (found_or_new name vols))
        else find_volume j vols)
find_volume-mount_claim vols name claim j =
    rw (mount_claim-eq-mount vols name claim) (find_volume-mount vols name claim j)
