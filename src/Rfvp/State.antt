-- ===== src/Rfvp/State.antt =====
-- The rfvp provider's runtimes (bridge/rfvp_runtime/src/rfvp_runtime_provider.cpp) and the adapter that
-- it calls (bridge/rfvp_runtime/include/rfvp_host.h), which is not in this repository.
use aether_kiri.Prelude.{
  ℕ, ◌-◌, ℤ, pos, negsuc, Bool, false, Option, none, some, List, [], ◌∷◌, Text, text, if◌then◌else◌,
  ◌==◌, is_empty,
}
use aether_kiri.Engine.Calls.{InputEvent}

-- engine_result_t as the `int` that the adapter's codes are cast to.
abbrev pub Code : Type 0
Code = ℤ

abbrev pub ok : Code
ok = pos 0

abbrev pub invalid_argument : Code
invalid_argument = negsuc 0

abbrev pub invalid_state : Code
invalid_state = negsuc 1

abbrev pub not_supported : Code
not_supported = negsuc 2

abbrev pub internal_error : Code
internal_error = negsuc 4

abbrev pub is_ok : Code → Bool
is_ok (pos n) = n == 0
is_ok (negsuc n) = false

-- The current frame. The adapter writes the outputs when it returns 0.
pub data FrameReply : Type 0 where
  frame : ℕ → ℕ → ℕ → FrameReply
  failed : Code → FrameReply

abbrev pub frame_code : FrameReply → Code
frame_code (frame width height serial) = ok
frame_code (failed code) = code

-- The frame's texture, if the adapter draws on the GPU: texture, width, height and serial.
pub data GpuReply : Type 0 where
  texture : ℕ → ℕ → ℕ → ℕ → GpuReply
  failed : Code → GpuReply

-- The adapter's functions on the state `E` outside the provider. A core is a pointer. `log` gives the
-- messages that repeated calls return before the first one that returns 0, each with its level.
pub record Adapter (E : Type 0) : Type 0 where
  pub new_core : Bool → E → E × ℕ
  pub free_core : ℕ → E → E
  pub probe : Text → E → E × ℤ
  pub open_core : ℕ → Text → Option Text → Text → Text → Text → Text → E → E × Code
  pub tick_core : ℕ → ℕ → E → E × Code
  pub pause_core : ℕ → Bool → E → E × Code
  pub input_core : ℕ → InputEvent → E → E × Code
  pub frame_core : ℕ → E → E × FrameReply
  pub gpu_frame_core : ℕ → E → E × GpuReply
  pub read_core : ℕ → ℕ → E → E × Code
  pub error_core : ℕ → E → Option Text
  pub log : E → E × List (ℕ × Text)

-- struct Runtime. Of the host's table only `log` is used, which gets a level and a message.
pub record Runtime (E : Type 0) : Type 0 where
  pub core : ℕ
  pub host_log : Option (ℕ → Text → E → E)
  pub writable : Text
  pub font : Text
  pub encoding : Text
  pub renderer : Text
  pub error : Text
  pub read_serial : ℕ
  pub opened : Bool

-- One runtime and what is outside.
pub record State (E : Type 0) : Type 0 where
  pub env : E
  pub runtime : Runtime E

abbrev error_text : Option Text → Text
error_text none = text "rfvp operation is not supported"
error_text (some message) =
    if is_empty message then text "rfvp operation is not supported" else message

module _ {E : Type 0} where
  unfoldable pub deliver : Option (ℕ → Text → E → E) → List (ℕ × Text) → E → E
  deliver none lines env = env
  deliver (some log) [] env = env
  deliver (some log) ((level, message) ∷ lines) env =
      deliver (some log) lines (log (level - 1) message env)

  abbrev set_error : Text → State E → State E
  set_error message s = record s { runtime = record s.runtime { error = message } }

  -- `code` on a state whose log is drained.
  unfoldable pub settle : Adapter E → Code → State E → State E × Code
  settle a (pos n) s =
      if n == 1
      then (set_error (text "runtime requested termination") s, invalid_state)
      else (set_error [] s, pos n)
  settle a (negsuc n) s = (set_error (error_text (a.error_core s.runtime.core s.env)) s, negsuc n)

  -- Runtime::result
  unfoldable pub result : Adapter E → Code → State E → State E × Code
  unfolding deliver settle
  result a code s =
      let (env, lines) = a.log s.env in
      settle a code (record s { env = deliver s.runtime.host_log lines env })

  -- return r.result(f(r.core, ...));
  unfoldable pub call : Adapter E → (ℕ → E → E × Code) → State E → State E × Code
  unfolding result
  call a f s = let (env, code) = f s.runtime.core s.env in result a code (record s { env = env })
