-- ===== src/Siglus/State.antt =====
-- The runtimes of bridge/siglus_runtime/src/siglus_runtime_provider.cpp, and what they call: the shell
-- of bridge/siglus_runtime/include/siglus_ffi.h, which is written in Rust, the shared textures and the
-- sound output.
use aether_kiri.Prelude.{
  ℕ, ℤ, pos, negsuc, Bool, false, Option, none, some, List, [], ◌++◌, Text, text, is_empty,
  if◌then◌else◌, ◌==◌,
}
use aether_kiri.Engine.Calls.{
  Result, ok, invalid_argument, invalid_state, not_supported, io_error, internal_error,
}

-- siglus_ak_get_frame_desc: its code and its outputs.
pub record Geometry : Type 0 where
  pub code : ℤ
  pub width : ℕ
  pub height : ℕ
  pub stride : ℕ

-- siglus_ak_text_input_state_t, with the code of the call.
pub record TextState : Type 0 where
  pub code : ℤ
  pub active : ℕ
  pub x : ℤ
  pub y : ℤ
  pub text_bytes : ℕ
  pub selection_start : ℤ
  pub selection_end : ℤ

-- siglus_ak_cache_stats: its code and its outputs.
pub record CacheStats : Type 0 where
  pub code : ℤ
  pub cpu : ℕ
  pub gpu : ℕ
  pub cpu_limit : ℕ
  pub gpu_limit : ℕ

-- The functions on the state `E` outside the provider. A shell is a pointer. A function that fills a
-- buffer takes its bytes and gives the new ones. `to_int32` is the conversion of a double, and
-- `scan_pair` is `std::sscanf` with "%d,%d".
pub record Shell (E : Type 0) : Type 0 where
  pub create_shell : E → E × ℕ
  pub destroy_shell : ℕ → E → E
  pub open_shell : ℕ → Text → ℕ → ℕ → E → E × ℤ
  pub close_shell : ℕ → E → E
  pub resize_shell : ℕ → ℕ → ℕ → E → E × ℤ
  pub game_screen_size : ℕ → E → E × Geometry
  pub step : ℕ → ℕ → E → E × ℤ
  pub set_paused : ℕ → Bool → E → E × ℤ
  pub cache_stats : ℕ → E → E × CacheStats
  pub debug_info : ℕ → E → E × (ℤ × Text)
  pub frame_desc : ℕ → E → E × Geometry
  pub read_frame : ℕ → List ℕ → E → E × (ℤ × List ℕ)
  pub mouse_move : ℕ → ℕ → ℕ → E → E × ℤ
  pub pointer_cancel : ℕ → E → E × ℤ
  pub mouse_button : ℕ → ℤ → Bool → E → E × ℤ
  pub mouse_wheel : ℕ → ℤ → E → E × ℤ
  pub key : ℕ → ℤ → Bool → E → E × ℤ
  pub joypad_button : ℕ → ℕ → Bool → E → E × ℤ
  pub text_input : ℕ → Text → E → E × ℤ
  pub text_input_state : ℕ → E → E × TextState
  pub copy_text_input_text : ℕ → ℕ → E → E × (ℤ × List ℕ)
  pub ime_preedit : ℕ → Option Text → ℤ → ℤ → E → E × ℤ
  pub set_platform_request_callback : ℕ → E → E
  pub submit_platform_response : ℕ → Text → Text → E → E × ℤ
  pub last_error : ℕ → E → Text
  pub begin_shared : ℕ → ℕ → ℕ → E → E × Bool
  pub publish_shared : ℕ → E → E × Bool
  pub reset_shared : ℕ → E → E
  pub get_shared : E → Option (List ℕ)
  pub start_output : E → E × Option Text
  pub stop_output : E → E
  pub pause_output : Bool → E → E
  pub to_int32 : ℕ → ℤ
  pub scan_pair : Text → Option (ℤ × ℤ)

-- ProviderRuntime. Of the host's table the provider itself only uses `log`.
pub record Runtime (E : Type 0) : Type 0 where
  pub host_log : Option (ℕ → Text → E → E)
  pub ak : ℕ
  pub opened : Bool
  pub paused : Bool
  pub terminated : Bool
  pub shared_current : Bool
  pub ime_start : ℤ
  pub ime_length : ℤ
  pub pending_width : ℕ
  pub pending_height : ℕ
  pub native_width : ℕ
  pub native_height : ℕ
  pub frame_rgba : List ℕ
  pub frame_width : ℕ
  pub frame_height : ℕ
  pub frame_stride : ℕ
  pub frame_serial : ℕ
  pub delivered_frame_serial : ℕ
  pub error : Text

-- One runtime and what is outside.
pub record State (E : Type 0) : Type 0 where
  pub env : E
  pub runtime : Runtime E

-- The state behind a call, its result and what it wrote.
pub record Answer (E : Type 0) : Type 0 where
  pub state : State E
  pub result : Result
  pub out : List ℕ

-- The members as ProviderRuntime initializes them.
abbrev pub new_runtime : {E : Type 0} → Option (ℕ → Text → E → E) → ℕ → Runtime E
new_runtime log ak = record {
  host_log = log;
  ak = ak;
  opened = false;
  paused = false;
  terminated = false;
  shared_current = false;
  ime_start = negsuc 0;
  ime_length = pos 0;
  pending_width = 1280;
  pending_height = 720;
  native_width = 0;
  native_height = 0;
  frame_rgba = [];
  frame_width = 0;
  frame_height = 0;
  frame_stride = 0;
  frame_serial = 0;
  delivered_frame_serial = 0;
  error = [];
}

-- The switch of Fail.
abbrev pub result_of : ℤ → Result
result_of (pos n) = internal_error
result_of (negsuc n) =
    if n == 0
    then invalid_argument
    else if n == 1
    then invalid_state
    else if n == 2
    then not_supported
    else if n == 3
    then io_error
    else internal_error

module _ {E : Type 0} where
  abbrev pub answer : Result → State E → Answer E
  answer r s = record { state = s; result = r; out = [] }

  abbrev pub set_error : Text → State E → State E
  set_error message s = record s { runtime = record s.runtime { error = message } }

  -- LogHost
  unfoldable pub log_host : ℕ → Text → State E → State E
  log_host level message s = elim s.runtime.host_log [
    | none ↦ s
    | some log ↦ record s { env = log level message s.env }
  ]

  module _ (a : Shell E) where
    -- SafeLast
    abbrev pub safe_last : State E → Text
    safe_last s = if s.runtime.ak == 0 then [] else a.last_error s.runtime.ak s.env

    -- The shell's error text, or "(no detail)".
    abbrev pub detail : State E → Text
    detail s = if is_empty (safe_last s) then text "(no detail)" else safe_last s

    -- Fail
    unfoldable pub fail : Text → ℤ → State E → Answer E
    fail context code s =
        let message =
          if is_empty (safe_last s) then context else context ++ (text ": " ++ safe_last s) in
        answer (result_of code) (set_error message s)

    -- OkOr
    unfoldable pub ok_or : Text → ℤ → State E → Answer E
    unfolding fail
    ok_or context (pos n) s = answer ok s
    ok_or context (negsuc n) s = fail context (negsuc n) s

    -- return OkOr(instance->error, f(instance->ak, ...), instance->ak, context);
    unfoldable pub call : Text → (ℕ → E → E × ℤ) → State E → Answer E
    unfolding ok_or
    call context f s =
        let (env, code) = f s.runtime.ak s.env in ok_or context code (record s { env = env })
