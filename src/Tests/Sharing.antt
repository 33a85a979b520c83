-- ===== src/Tests/Sharing.antt =====
-- Init jobs whose volumes share the array of the pool's template.
use pvpool.Prelude.{◌≡◌, refl, ℕ, List, [], ◌∷◌, All, arith}
use pvpool.Api.Core.{Volume}
use pvpool.Replica.Jobs.{mount_claim, index_volume_by_name, index_volume_from}
use pvpool.Replica.Sharing.{Memory, Slice, view, new_volume, mount_shared, mount_all}
use pvpool.Replica.Sharing.Views.{view-mount_shared}
use pvpool.Replica.Sharing.LastWins.{mount_all_last}

-- One array, at 0, with the volume `data` and room for another.
abbrev memory : Memory
memory = record { arrays = λ _. new_volume "data" ∷ new_volume "" ∷ []; next = 1 }

abbrev template : Slice
template = record { array = 0; len = 1 }

abbrev no_room : ℕ → List Volume
no_room _ = []

view-mount_shared_example :
    let (t, n) = mount_shared no_room "cache" "claim-a" template memory in
    view n t ≡ mount_claim (view memory template) "cache" "claim-a"
view-mount_shared_example =
    view-mount_shared no_room "cache" "claim-a" template memory (omega arith)

mount_all_last_example :
    let (jobs, n) = mount_all no_room "data" ("claim-a" ∷ "claim-b" ∷ []) template memory in
    All (λ t. view n t ≡ mount_claim (view memory template) "data" "claim-b") (template ∷ jobs)
mount_all_last_example =
    mount_all_last no_room "data" template 0 ("claim-a" ∷ []) "claim-b" memory
      (unfold index_volume_by_name index_volume_from in refl)
