-- ===== src/Stub/Life.antt =====
-- The life of a stub engine (abi/src/engine_api_stub.cpp): creating, opening, ticking, pausing,
-- options and the startup logs.
use aether_kiri.Prelude.{
  ℕ, ◌+◌, ◌%◌, ◌^◌, Bool, not, ◌||◌, Option, none, some, List, [], ◌∷◌, ◌++◌, Text, text, eq_text,
  ltb, ◌==◌, if◌then◌else◌, length, is_empty, lookup, insert, remove, nat_key,
}
use aether_kiri.Engine.Calls.{
  invalid_argument, invalid_state, not_supported, internal_error, CreateDesc, create_desc_size,
  engine_api_version, major, StartupState,
}
use aether_kiri.Dispatch.Queues.{terminate}
use aether_kiri.Stub.State.{
  EngineState, is_opened, is_paused, Engine, new_engine, Stub, Body, Api, reject, accept, succeed,
  refuse, locked, not_destroyed,
}
use aether_kiri.Stub.Diagnostics.{Drained}

unfoldable pub engine_legacy_get_runtime_api_version : Bool → Api
unfolding reject accept
engine_legacy_get_runtime_api_version version_given =
    if not version_given
    then reject invalid_argument [] (text "out_api_version is null")
    else accept (engine_api_version ∷ [])

-- The registration of a new engine.
unfoldable pub add_engine : ℕ → Stub → Stub
add_engine address s = record s { engines = insert address new_engine s.engines }

unfoldable pub create_with : CreateDesc → ℕ → Api
unfolding reject accept add_engine
create_with desc address s =
    if ltb desc.struct_size create_desc_size
    then reject invalid_argument [] (text "engine_create_desc_t.struct_size is too small") s
    else if not (major desc.api_version == major engine_api_version)
    then reject not_supported [] (text "unsupported engine API major version") s
    else if address == 0
    then reject internal_error (0 ∷ []) (text "failed to allocate engine handle") s
    else accept (address ∷ []) (add_engine address s)

-- `address` is what `new (std::nothrow)` returns.
unfoldable pub engine_legacy_create : Option CreateDesc → Bool → ℕ → Api
unfolding reject create_with
engine_legacy_create none handle_given address =
    reject invalid_argument [] (text "engine_create requires non-null desc and out_handle")
engine_legacy_create (some desc) handle_given address =
    if not handle_given
    then reject invalid_argument [] (text "engine_create requires non-null desc and out_handle")
    else create_with desc address

unfoldable pub destroy_found : ℕ → Option Engine → Api
unfolding reject accept
destroy_found address none s =
    reject invalid_argument [] (text "engine handle is invalid or already destroyed") s
destroy_found address (some e) s = accept [] (record s { engines = remove address s.engines })

unfoldable pub engine_legacy_destroy : ℕ → Api
unfolding accept destroy_found
engine_legacy_destroy address s =
    if address == 0 then accept [] s else destroy_found address (lookup address s.engines) s

unfoldable pub open_game : Body
unfolding not_destroyed succeed
open_game = not_destroyed (λ g. succeed [] (record g {
  engine = record g.engine {
    state = EngineState.opened;
    startup_state = StartupState.succeeded;
    startup_logs = text "engine_open_game => OK" ∷ [];
  };
}))

-- The root path; `none` is a null pointer. The startup script is not read.
unfoldable pub engine_legacy_open_game : ℕ → Option Text → Api
unfolding reject locked open_game
engine_legacy_open_game address none =
    reject invalid_argument [] (text "game_root_path_utf8 is null or empty")
engine_legacy_open_game address (some path) =
    if is_empty path
    then reject invalid_argument [] (text "game_root_path_utf8 is null or empty")
    else locked address [] open_game

unfoldable pub engine_legacy_open_game_async : ℕ → Option Text → Api
unfolding engine_legacy_open_game
engine_legacy_open_game_async address path = engine_legacy_open_game address path

-- engine_startup_state_t
abbrev pub startup_value : StartupState → ℕ
startup_value StartupState.idle = 0
startup_value StartupState.running = 1
startup_value StartupState.succeeded = 2
startup_value StartupState.failed = 3

unfoldable pub get_startup_state : Body
unfolding succeed
get_startup_state g = succeed (startup_value g.engine.startup_state ∷ []) g

unfoldable pub engine_legacy_get_startup_state : ℕ → Bool → Api
unfolding reject locked get_startup_state
engine_legacy_get_startup_state address state_given =
    if not state_given
    then reject invalid_argument [] (text "out_state is null")
    else locked address [] get_startup_state

-- The loop of engine_drain_startup_logs. A line's bytes and its '\n', and the sum with what is
-- written, are `uint32_t`.
unfoldable pub drain_logs : ℕ → Text → List Text → Drained
drain_logs size bytes [] = record { bytes = bytes; rest = [] }
drain_logs size bytes (line ∷ lines) =
    if ltb size ((length bytes + (length line + 1) % 2 ^ 32) % 2 ^ 32)
    then record { bytes = bytes; rest = line ∷ lines }
    else drain_logs size (bytes ++ (line ++ b'\n' ∷ [])) lines

-- The reply is the byte count and the buffer.
unfoldable pub drain_startup_logs : ℕ → Body
unfolding drain_logs terminate succeed
drain_startup_logs size g =
    let drained = drain_logs size [] g.engine.startup_logs in
    succeed (length drained.bytes ∷ terminate size drained.bytes)
      (record g { engine = record g.engine { startup_logs = drained.rest } })

unfoldable pub engine_legacy_drain_startup_logs : ℕ → Bool → ℕ → Bool → Api
unfolding reject locked drain_startup_logs
engine_legacy_drain_startup_logs address buffer_given size written_given =
    if not written_given
    then reject invalid_argument [] (text "out_bytes_written is null")
    else if not buffer_given || size == 0
    then reject invalid_argument [] (text "out_buffer is null or buffer_size is 0")
    else locked address [] (drain_startup_logs size)

unfoldable pub tick : Body
unfolding refuse succeed
tick g =
    if is_paused g.engine.state
    then refuse invalid_state [] (text "engine is paused") g
    else if not (is_opened g.engine.state)
    then refuse invalid_state [] (text "engine_open_game must succeed before engine_tick") g
    else succeed [] (record g {
      engine = record g.engine { frame_serial = (g.engine.frame_serial + 1) % 2 ^ 64 };
    })

unfoldable pub engine_legacy_tick : ℕ → ℕ → Api
unfolding locked tick
engine_legacy_tick address delta_ms = locked address [] tick

unfoldable pub pause : Body
unfolding refuse succeed
pause g =
    if is_paused g.engine.state
    then succeed [] g
    else if not (is_opened g.engine.state)
    then refuse invalid_state [] (text "engine_pause requires opened state") g
    else succeed [] (record g { engine = record g.engine { state = EngineState.paused } })

unfoldable pub engine_legacy_pause : ℕ → Api
unfolding locked pause
engine_legacy_pause address = locked address [] pause

unfoldable pub resume : Body
unfolding refuse succeed
resume g =
    if is_opened g.engine.state
    then succeed [] g
    else if not (is_paused g.engine.state)
    then refuse invalid_state [] (text "engine_resume requires paused state") g
    else succeed [] (record g { engine = record g.engine { state = EngineState.opened } })

unfoldable pub engine_legacy_resume : ℕ → Api
unfolding locked resume
engine_legacy_resume address = locked address [] resume

-- Only the key `plugin_trace` has an effect.
unfoldable pub apply_option : Text → Text → Engine → Engine
apply_option key value e =
    if eq_text key (text "plugin_trace")
    then record e {
      plugin_tracing_enabled = eq_text value (text "1") || eq_text value (text "true");
    }
    else e

unfoldable pub set_option : Text → Text → Body
unfolding not_destroyed succeed apply_option
set_option key value =
    not_destroyed (λ g. succeed [] (record g { engine = apply_option key value g.engine }))

-- The members of an option; a null option is one with two null pointers.
unfoldable pub engine_legacy_set_option : ℕ → Option Text → Option Text → Api
unfolding reject locked set_option
engine_legacy_set_option address none value =
    reject invalid_argument [] (text "option and option->key_utf8 must be non-null/non-empty")
engine_legacy_set_option address (some key) none =
    if is_empty key
    then reject invalid_argument [] (text "option and option->key_utf8 must be non-null/non-empty")
    else reject invalid_argument [] (text "option->value_utf8 must be non-null")
engine_legacy_set_option address (some key) (some value) =
    if is_empty key
    then reject invalid_argument [] (text "option and option->key_utf8 must be non-null/non-empty")
    else locked address [] (set_option key value)

unfoldable pub set_surface_size : ℕ → ℕ → Body
unfolding not_destroyed succeed
set_surface_size width height = not_destroyed (λ g.
    succeed []
      (record g { engine = record g.engine { surface_width = width; surface_height = height } }))

unfoldable pub engine_legacy_set_surface_size : ℕ → ℕ → ℕ → Api
unfolding reject locked set_surface_size
engine_legacy_set_surface_size address width height =
    if width == 0 || height == 0
    then reject invalid_argument [] (text "width and height must be > 0")
    else locked address [] (set_surface_size width height)
