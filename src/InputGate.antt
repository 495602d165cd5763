-- ===== src/InputGate.antt =====
-- abi/src/engine_input_queue_gate.h: which pointer events enter the input queue.
pub mod Gestures
pub mod Edges
use aether_kiri.Prelude.{
  ℕ, suc, ◌-◌, Bool, true, false, not, ◌&&◌, ◌||◌, ℤ, pos, eq_ℤ, Option, none, some, List, [], ◌∷◌,
  leb, if◌then◌else◌,
}
use aether_kiri.Engine.Calls.{EventType, InputEvent}

-- PrimaryClickQueueGate
pub record Gate : Type 0 where
  pub primary_down_pointer_id : Option ℤ
  pub queued_primary_gestures : ℕ
  pub suppressed_pointer_ids : List ℤ

abbrev pub max_queued_primary_gestures : ℕ
max_queued_primary_gestures = 8

unfoldable pub is_suppressed : ℤ → List ℤ → Bool
is_suppressed id [] = false
is_suppressed id (x ∷ xs) = eq_ℤ x id || is_suppressed id xs

unfoldable pub forget : ℤ → List ℤ → List ℤ
forget id [] = []
forget id (x ∷ xs) = let rest = forget id xs in if eq_ℤ x id then rest else x ∷ rest

abbrev pub suppress : ℤ → Gate → Gate
suppress id g = record g {
  suppressed_pointer_ids =
      if is_suppressed id g.suppressed_pointer_ids
      then g.suppressed_pointer_ids
      else id ∷ g.suppressed_pointer_ids;
}

-- primary_down_pointer_id_ has this value.
abbrev pub is_down : ℤ → Option ℤ → Bool
is_down id none = false
is_down id (some p) = eq_ℤ p id

-- POINTER_DOWN of the primary button
unfoldable pub press : ℤ → Option ℤ → Gate → Bool × Gate
unfolding is_suppressed forget
press id (some p) g = (false, if eq_ℤ p id then g else suppress id g)
press id none g =
    if leb max_queued_primary_gestures g.queued_primary_gestures then (false, suppress id g) else (
      true,
      record g {
        primary_down_pointer_id = some id;
        suppressed_pointer_ids = forget id g.suppressed_pointer_ids;
      },
    )

-- POINTER_UP of the primary button
unfoldable pub lift : ℤ → Gate → Bool × Gate
unfolding forget
lift id g =
    if is_down id g.primary_down_pointer_id
    then (
      true,
      record {
        primary_down_pointer_id = none;
        queued_primary_gestures = suc g.queued_primary_gestures;
        suppressed_pointer_ids = forget id g.suppressed_pointer_ids;
      },
    )
    else (false, record g { suppressed_pointer_ids = forget id g.suppressed_pointer_ids })

-- An event of the primary button.
unfoldable pub enqueue_primary : EventType → ℤ → Gate → Bool × Gate
unfolding press lift is_suppressed
enqueue_primary EventType.pointer_down id g = press id g.primary_down_pointer_id g
enqueue_primary EventType.pointer_move id g = (
  not (is_suppressed id g.suppressed_pointer_ids && not (is_down id g.primary_down_pointer_id)),
  g,
)
enqueue_primary EventType.pointer_up id g = lift id g
enqueue_primary _ id g = (true, g)

unfoldable pub should_enqueue : InputEvent → Gate → Bool × Gate
unfolding enqueue_primary
should_enqueue event g =
    if eq_ℤ event.button (pos 0) then enqueue_primary event.type event.pointer_id g else (true, g)

abbrev pub released : EventType → ℕ
released EventType.pointer_up = 1
released _ = 0

-- 1 for a release of the primary button
unfoldable pub gestures : InputEvent → ℕ
gestures event = if eq_ℤ event.button (pos 0) then released event.type else 0

unfoldable pub on_dequeued : InputEvent → Gate → Gate
unfolding gestures
on_dequeued event g = record g {
  queued_primary_gestures = g.queued_primary_gestures - gestures event;
}

abbrev pub reset : Gate
reset = record {
  primary_down_pointer_id = none;
  queued_primary_gestures = 0;
  suppressed_pointer_ids = [];
}
