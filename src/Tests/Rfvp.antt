-- ===== src/Tests/Rfvp.antt =====
-- Runs of an rfvp runtime with an adapter that accepts everything.
use aether_kiri.Prelude.{
  ℕ, pos, ◌+◌, ◌≡◌, refl, Bool, true, false, none, some, List, [], ◌∷◌, text, eq_text,
}
use aether_kiri.Rfvp.State.{Adapter, Runtime, State, FrameReply, GpuReply, ok}
use aether_kiri.Rfvp.Calls.{set_option, is_encoding, is_renderer, OptionKey}
use aether_kiri.Rfvp.Run.{Call, perform_all}
use aether_kiri.Rfvp.Settings.{IsValid, SameSettings, perform_all-IsValid, perform_all-SameSettings}
use aether_kiri.Rfvp.Options.{Sets, set_option-Sets}

abbrev accepting : Adapter ℕ
accepting = record {
  new_core = λ gpu env. (env + 1, env + 1);
  free_core = λ core env. env;
  probe = λ path env. (env, pos 80);
  open_core = λ core path script writable font encoding renderer env. (env, ok);
  tick_core = λ core delta env. (env + 1, ok);
  pause_core = λ core paused env. (env, ok);
  input_core = λ core event env. (env, ok);
  frame_core = λ core env. (env, FrameReply.frame 640 480 env);
  gpu_frame_core = λ core env. (env, GpuReply.failed (pos 0));
  read_core = λ core size env. (env, ok);
  error_core = λ core env. none;
  log = λ env. (env, []);
}

abbrev runtime : Bool → Runtime ℕ
runtime opened = record {
  core = 1;
  host_log = none;
  writable = [];
  font = [];
  encoding = text "sjis";
  renderer = text "auto";
  error = [];
  read_serial = 0;
  opened = opened;
}

abbrev start : Bool → State ℕ
start opened = record { env = 1; runtime = runtime opened }

abbrev calls : List Call
calls =
    Call.set_option (some (text "rfvp_encoding")) (some (text "gbk"))
    ∷ Call.open_game (some (text "game")) none
    ∷ Call.set_option (some (text "rfvp_encoding")) (some (text "utf8"))
    ∷ Call.tick 16
    ∷ []

start-IsValid : IsValid (runtime false)
unfolding is_encoding is_renderer text eq_text
start-IsValid = record { encoding = refl; renderer = refl }

perform_all-IsValid_example : IsValid (perform_all accepting calls (start false)).runtime
perform_all-IsValid_example = perform_all-IsValid accepting calls (start false) start-IsValid

perform_all-SameSettings_example :
    SameSettings (runtime true) (perform_all accepting calls (start true)).runtime
    × ((perform_all accepting calls (start true)).runtime.opened ≡ true)
perform_all-SameSettings_example = perform_all-SameSettings accepting calls (start true) refl

set_option-Sets_example :
    Sets OptionKey.rfvp_encoding
      (text "gbk")
      (runtime false)
      (set_option (text "rfvp_encoding") (text "gbk") (runtime false))
unfolding text eq_text
set_option-Sets_example =
    set_option-Sets OptionKey.rfvp_encoding (text "rfvp_encoding") (text "gbk") (runtime false) refl
