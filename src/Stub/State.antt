-- ===== src/Stub/State.antt =====
-- The state of abi/src/engine_api_stub.cpp and the shape of its functions. Its functions are compiled
-- under the engine_legacy_ names of abi/src/legacy_engine_api_rename.h, which are used here.
use aether_kiri.Prelude.{
  ℕ, ℤ, Bool, true, false, not, ◌||◌, Option, none, some, List, [], Text, text, if◌then◌else◌, ◌==◌,
  lookup, insert, nat_key,
}
use aether_kiri.Engine.Calls.{Result, ok, invalid_argument, invalid_state, Reply, StartupState}

-- enum class EngineState
pub data EngineState : Type 0 where
  created opened paused destroyed : EngineState

abbrev pub is_opened : EngineState → Bool
is_opened opened = true
is_opened _ = false

abbrev pub is_paused : EngineState → Bool
is_paused paused = true
is_paused _ = false

abbrev pub is_destroyed : EngineState → Bool
is_destroyed destroyed = true
is_destroyed _ = false

-- engine_handle_s. The counters are `uint64_t` and wrap.
pub record Engine : Type 0 where
  pub last_error : Text
  pub state : EngineState
  pub surface_width : ℕ
  pub surface_height : ℕ
  pub frame_serial : ℕ
  pub startup_state : StartupState
  pub startup_logs : List Text
  pub plugin_tracing_enabled : Bool
  pub diagnostics_enabled : Bool
  pub diagnostic_sequence : ℕ
  pub diagnostic_dropped : ℕ
  pub diagnostic_max_events : ℕ
  pub diagnostic_monotonic_offset_us : ℤ
  pub diagnostic_session : Text
  pub diagnostic_events : List Text

abbrev pub new_engine : Engine
new_engine = record {
  last_error = [];
  state = created;
  surface_width = 1280;
  surface_height = 720;
  frame_serial = 0;
  startup_state = StartupState.idle;
  startup_logs = [];
  plugin_tracing_enabled = false;
  diagnostics_enabled = false;
  diagnostic_sequence = 0;
  diagnostic_dropped = 0;
  diagnostic_max_events = 2000;
  diagnostic_monotonic_offset_us = ℤ.pos 0;
  diagnostic_session = [];
  diagnostic_events = [];
}

-- g_live_handles with the objects behind the pointers, and g_thread_error.
pub record Stub : Type 0 where
  pub engines : List (ℕ × Engine)
  pub thread_error : Text

abbrev pub new_stub : Stub
new_stub = record { engines = []; thread_error = [] }

-- One engine under its mutex, and the error of the calling thread.
pub record Guarded : Type 0 where
  pub engine : Engine
  pub thread_error : Text

-- `none` is an access to the front of an empty deque.
abbrev pub Body : Type 0
Body = Guarded → Option (Reply × Guarded)

abbrev pub Api : Type 0
Api = Stub → Option (Reply × Stub)

abbrev pub with_result : Result → List ℕ → Reply
with_result r out = record { result = r; out = out }

-- SetThreadErrorAndReturn, after `out` was written.
unfoldable pub reject : Result → List ℕ → Text → Api
reject r out message s = some (with_result r out, record s { thread_error = message })

-- SetThreadError(nullptr); return ENGINE_RESULT_OK;
unfoldable pub accept : List ℕ → Api
accept out s = some (with_result ok out, record s { thread_error = [] })

-- SetHandleErrorLocked, then return.
unfoldable pub refuse : Result → List ℕ → Text → Body
refuse r out message g =
    some (with_result r out, record g { engine = record g.engine { last_error = message } })

-- last_error.clear(); SetThreadError(nullptr); return ENGINE_RESULT_OK;
unfoldable pub succeed : List ℕ → Body
succeed out g =
    some (
      with_result ok out,
      record { engine = record g.engine { last_error = [] }; thread_error = [] },
    )

unfoldable pub store : ℕ → Option (Reply × Guarded) → Stub → Option (Reply × Stub)
store address none s = none
store address (some (reply, g)) s =
    some (
      reply,
      record s { engines = insert address g.engine s.engines; thread_error = g.thread_error },
    )

unfoldable pub enter : ℕ → List ℕ → Body → Option Engine → Api
unfolding reject store
enter address out body none s =
    reject invalid_argument out (text "engine handle is invalid or already destroyed") s
enter address out body (some e) s =
    store address (body (record { engine = e; thread_error = s.thread_error })) s

-- ValidateHandleLocked, then the body under the engine's mutex. `out` was written before.
unfoldable pub locked : ℕ → List ℕ → Body → Api
unfolding enter reject
locked address out body s =
    if address == 0
    then reject invalid_argument out (text "engine handle is null") s
    else enter address out body (lookup address s.engines) s

-- The guard of the functions that need an opened or a paused game.
unfoldable pub in_game : List ℕ → Text → Body → Body
unfolding refuse
in_game out message body g =
    if not (is_opened g.engine.state || is_paused g.engine.state)
    then refuse invalid_state out message g
    else body g

-- The guard of the functions that only a destroyed engine rejects.
unfoldable pub not_destroyed : Body → Body
unfolding refuse
not_destroyed body g =
    if is_destroyed g.engine.state
    then refuse invalid_state [] (text "engine is already destroyed") g
    else body g
