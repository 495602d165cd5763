-- ===== src/Tests/Siglus.antt =====
-- Runs of a siglus runtime with a shell that accepts everything and, at the second step, asks to leave.
use aether_kiri.Prelude.{
  ℕ, ◌+◌, pos, ◌≡◌, refl, true, false, none, some, [], ◌∷◌, Text, text, arith, ltb, if◌then◌else◌,
}
use aether_kiri.Engine.Calls.{EventType, InputEvent, invalid_state}
use aether_kiri.Siglus.State.{Geometry, Shell, State, new_runtime, call}
use aether_kiri.Siglus.Frames.{tick}
use aether_kiri.Siglus.Input.{send_input, is_scalar}
use aether_kiri.Siglus.Run.{Call, perform_all}
use aether_kiri.Siglus.Typing.{decode_utf8, send_input-decode_utf8}
use aether_kiri.Siglus.Exit.Rules.{HasLeft}
use aether_kiri.Siglus.Exit.Every.{perform_all-tick}

abbrev size : Geometry
size = record { code = pos 0; width = 2; height = 1; stride = 8 }

-- The outside state counts the steps of the engine.
abbrev shell : Shell ℕ
shell = record {
  create_shell = λ env. (env, 16);
  destroy_shell = λ ak env. env;
  open_shell = λ ak path width height env. (env, pos 0);
  close_shell = λ ak env. env;
  resize_shell = λ ak width height env. (env, pos 0);
  game_screen_size = λ ak env. (env, size);
  step = λ ak delta env. (env + 1, pos (if ltb env 1 then 0 else 1));
  set_paused = λ ak paused env. (env, pos 0);
  cache_stats =
      λ ak env. (env, record { code = pos 0; cpu = 0; gpu = 0; cpu_limit = 0; gpu_limit = 0 });
  debug_info = λ ak env. (env, (pos 0, []));
  frame_desc = λ ak env. (env, size);
  read_frame = λ ak pixels env. (env, (pos 0, pixels));
  mouse_move = λ ak x y env. (env, pos 0);
  pointer_cancel = λ ak env. (env, pos 0);
  mouse_button = λ ak button pressed env. (env, pos 0);
  mouse_wheel = λ ak delta env. (env, pos 0);
  key = λ ak code pressed env. (env, pos 0);
  joypad_button = λ ak button pressed env. (env, pos 0);
  text_input = λ ak typed env. (env, pos 0);
  text_input_state = λ ak env. (
    env,
    record {
      code = pos 0;
      active = 0;
      x = pos 0;
      y = pos 0;
      text_bytes = 0;
      selection_start = pos 0;
      selection_end = pos 0;
    },
  );
  copy_text_input_text = λ ak size env. (env, (pos 0, []));
  ime_preedit = λ ak typed start count env. (env, pos 0);
  set_platform_request_callback = λ ak env. env;
  submit_platform_response = λ ak operation argument env. (env, pos 0);
  last_error = λ ak env. [];
  begin_shared = λ ak width height env. (env, false);
  publish_shared = λ serial env. (env, false);
  reset_shared = λ ak env. env;
  get_shared = λ env. none;
  start_output = λ env. (env, none);
  stop_output = λ env. env;
  pause_output = λ paused env. env;
  to_int32 = λ bits. pos 0;
  scan_pair = λ value. none;
}

abbrev opened : State ℕ
opened = record { env = 0; runtime = record (new_runtime none 16) { opened = true } }

-- The character あ.
abbrev typing : InputEvent
typing = record {
  struct_size = 104;
  type = EventType.text_input;
  timestamp_micros = 0;
  x = 0;
  y = 0;
  delta_x = 0;
  delta_y = 0;
  pointer_id = pos 0;
  button = pos 0;
  key_code = pos 0;
  modifiers = pos 0;
  unicode_codepoint = 0x3042;
}

typing-is_scalar : is_scalar 0x3042 ≡ true
unfolding is_scalar
typing-is_scalar = refl

send_input-decode_utf8_example :
    (typed : Text) × (decode_utf8 typed ≡ some 0x3042)
    × (send_input shell (some typing) opened
        ≡ call shell (text "siglus input dispatch") (λ ak. shell.text_input ak typed) opened)
send_input-decode_utf8_example =
    send_input-decode_utf8 shell typing opened refl refl refl refl (omega arith) typing-is_scalar

-- The state behind two ticks.
abbrev left : State ℕ
left = (tick shell 16 (tick shell 16 opened).state).state

left-HasLeft : HasLeft left
unfolding tick
left-HasLeft = record { opened = refl; terminated = refl }

perform_all-tick_example :
    ((tick shell 16 (perform_all shell (Call.pause ∷ Call.tick 16 ∷ []) left)).result
      ≡ invalid_state)
    × ((tick shell 16 (perform_all shell (Call.pause ∷ Call.tick 16 ∷ []) left)).state.env
        ≡ (perform_all shell (Call.pause ∷ Call.tick 16 ∷ []) left).env)
perform_all-tick_example =
    perform_all-tick shell (Call.pause ∷ Call.tick 16 ∷ []) 16 left left-HasLeft (refl, (refl, tt))
