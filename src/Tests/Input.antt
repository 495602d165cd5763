-- ===== src/Tests/Input.antt =====
-- Runs of the gate before the input queue.
use aether_kiri.Prelude.{ℕ, ◌≤◌, pos, none, List, [], ◌∷◌}
use aether_kiri.Engine.Calls.{EventType, InputEvent}
use aether_kiri.InputGate.Gestures.{
  waiting, Step, offer_event, take_event, perform_all, empty_queue, perform_all-waiting,
}
use aether_kiri.InputGate.Edges.{accepted, Alternates, accepted-whole}

abbrev pointer : EventType → ℕ → InputEvent
pointer type id = record {
  struct_size = 96;
  type = type;
  timestamp_micros = 0;
  x = 0;
  y = 0;
  delta_x = 0;
  delta_y = 0;
  pointer_id = pos id;
  button = pos 0;
  key_code = pos 0;
  modifiers = pos 0;
  unicode_codepoint = 0;
}

-- A second pointer goes down before the first is lifted.
abbrev two_fingers : List Step
two_fingers =
    offer_event (pointer EventType.pointer_down 0)
    ∷ offer_event (pointer EventType.pointer_down 1)
    ∷ offer_event (pointer EventType.pointer_up 1)
    ∷ offer_event (pointer EventType.pointer_up 0)
    ∷ take_event
    ∷ []

perform_all-waiting_example : waiting (perform_all two_fingers empty_queue).events ≤ 8
perform_all-waiting_example = perform_all-waiting two_fingers

accepted-whole_example : Alternates none (accepted two_fingers empty_queue)
accepted-whole_example = accepted-whole two_fingers
