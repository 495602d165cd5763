-- ===== src/Tests/Barriers.antt =====
-- Runs of the barrier planner.
use aether_kiri.Prelude.{◌≡◌, ◌↔◌, refl, true, false, [], ◌∷◌, ◌++◌, arith}
use aether_kiri.Barriers.{
  Access, new_planner, contains, intersects, insert_valid, record_step, hazards, any_barrier,
  finish,
}
use aether_kiri.Barriers.Order.{conflict, conflict-IsSeparated}
use aether_kiri.Barriers.Epoch.{
  Tracks, IsExact, new_planner-Tracks, record_step-IsExact, finish-IsExact, Writes,
}

abbrev draw : Access
draw = record { reads = 1 ∷ []; writes = 2 ∷ [] }

abbrev present : Access
present = record { reads = 2 ∷ []; writes = [] }

abbrev upload : Access
upload = record { reads = []; writes = 3 ∷ [] }

-- The picture is drawn, another is uploaded, and the first is shown: a barrier is needed.
shown : any_barrier new_planner (draw ∷ upload ∷ present ∷ []) ≡ true
unfolding any_barrier record_step hazards intersects insert_valid contains
shown = refl

not_shown : any_barrier new_planner (draw ∷ upload ∷ []) ≡ false
unfolding any_barrier record_step hazards intersects insert_valid contains
not_shown = refl

conflicts : conflict 2 draw present ≡ true
unfolding contains
conflicts = refl

conflict-IsSeparated_example :
    any_barrier (record_step new_planner draw).0 ((upload ∷ []) ++ present ∷ []) ≡ true
conflict-IsSeparated_example =
    conflict-IsSeparated new_planner draw present (upload ∷ []) 2 (omega arith) conflicts

record_step-IsExact_example : IsExact new_planner draw []
record_step-IsExact_example = record_step-IsExact new_planner draw [] new_planner-Tracks

after_draw : Tracks (record_step new_planner draw).0 (draw ∷ [])
unfolding record_step hazards intersects contains
after_draw = (record_step-IsExact new_planner draw [] new_planner-Tracks).next

finish-IsExact_example :
    (((finish (record_step new_planner draw).0).1 ≡ true) ↔ Writes (draw ∷ []))
    × Tracks (finish (record_step new_planner draw).0).0 []
finish-IsExact_example = finish-IsExact (record_step new_planner draw).0 (draw ∷ []) after_draw
