-- ===== src/Stub/Dead.antt =====
-- Handles that are not live (abi/src/engine_api_stub.cpp).
use aether_kiri.Prelude.{
  ℕ, ◌≡◌, refl, Bool, true, false, not, ◌||◌, Option, none, some, List, [], ◌∷◌, Text, text, ◌==◌,
  if◌then◌else◌, is_empty, Bool-cases, inl, inr, nat_key, lookup,
}
use aether_kiri.Engine.Calls.{invalid_argument, Reply, InputEvent}
use aether_kiri.Stub.State.{Stub, Api, Body, reject, locked, enter, with_result, succeed, refuse}
use aether_kiri.Stub.Life
use aether_kiri.Stub.Frames
use aether_kiri.Stub.Diagnostics
use aether_kiri.Stub.Diagnostics.{
  Config, engine_legacy_set_diagnostic_config, engine_legacy_mark_diagnostic_event,
  engine_legacy_drain_diagnostic_events,
}
use aether_kiri.Stub.Life.{
  engine_legacy_open_game, engine_legacy_open_game_async, engine_legacy_get_startup_state,
  engine_legacy_drain_startup_logs, engine_legacy_tick, engine_legacy_pause, engine_legacy_resume,
  engine_legacy_set_option, engine_legacy_set_surface_size,
}
use aether_kiri.Stub.Frames.{
  engine_legacy_get_frame_desc, engine_legacy_read_frame_rgba, engine_legacy_get_host_native_window,
  engine_legacy_get_host_native_view, engine_legacy_send_input, engine_legacy_get_text_input_state,
  engine_legacy_copy_text_input_text, engine_legacy_set_render_target_iosurface,
  engine_legacy_set_render_target_surface, engine_legacy_get_frame_rendered_flag,
  engine_legacy_get_memory_stats, engine_legacy_get_plugin_debug_info,
}
use aether_kiri.Stub.Api.{HandleCall, on_handle}

-- A function returns INVALID_ARGUMENT and changes nothing but the thread's error, which it sets.
pub record Refuses (s : Stub) (o : Option (Reply × Stub)) : Type 0 where
  pub out : List ℕ
  pub message : Text
  pub returns : o ≡ some (with_result invalid_argument out, record s { thread_error = message })

module _ (h : ℕ) (s : Stub) (dead : lookup h s.engines ≡ none) where
  refusal : (out : List ℕ) (message : Text) → Refuses s (reject invalid_argument out message s)
  unfolding reject
  refusal out message = record { out = out; message = message; returns = refl }

  -- Rejected arguments, or a handle that is looked up.
  locked-Refuses : (out : List ℕ) (body : Body) → Refuses s (locked h out body s)
  unfolding locked enter
  locked-Refuses out body = elim (Bool-cases (h == 0)) [
    | inl q ↦ rw q (refusal out (text "engine handle is null"))
    | inr q ↦ rw (q, dead) (refusal out _)
  ]

  tested :
      (b : Bool) (message : Text) (next : Api)
      → Refuses s (next s)
      → Refuses s ((if b then reject invalid_argument [] message else next) s)
  tested true message next r = refusal [] message
  tested false message next r = r

  looked_up :
      (b : Bool) (message : Text) (out : List ℕ) (body : Body)
      → Refuses s ((if b then reject invalid_argument [] message else locked h out body) s)
  looked_up b message out body = tested b message (locked h out body) (locked-Refuses out body)

  open_game-Refuses : (path : Option Text) → Refuses s (engine_legacy_open_game h path s)
  unfolding engine_legacy_open_game
  open_game-Refuses none = refusal [] _
  open_game-Refuses (some path) = looked_up (is_empty path) _ [] Life.open_game

  set_option-Refuses :
      (key value : Option Text) → Refuses s (engine_legacy_set_option h key value s)
  unfolding engine_legacy_set_option
  set_option-Refuses none value = refusal [] _
  set_option-Refuses (some key) none =
      tested (is_empty key) _ (reject invalid_argument [] _) (refusal [] _)
  set_option-Refuses (some key) (some value) =
      looked_up (is_empty key) _ [] (Life.set_option key value)

  drain_startup_logs-Refuses :
      (buffer : Bool) (size : ℕ) (written : Bool)
      → Refuses s (engine_legacy_drain_startup_logs h buffer size written s)
  unfolding engine_legacy_drain_startup_logs
  drain_startup_logs-Refuses buffer size written =
      tested (not written) _ _
        (looked_up (not buffer || size == 0) _ [] (Life.drain_startup_logs size))

  get_frame_desc-Refuses : (size : Option ℕ) → Refuses s (engine_legacy_get_frame_desc h size s)
  unfolding engine_legacy_get_frame_desc
  get_frame_desc-Refuses none = refusal [] _
  get_frame_desc-Refuses (some n) = looked_up _ _ [] Frames.get_frame_desc

  get_text_input_state-Refuses :
      (size : Option ℕ) → Refuses s (engine_legacy_get_text_input_state h size s)
  unfolding engine_legacy_get_text_input_state
  get_text_input_state-Refuses none = refusal [] _
  get_text_input_state-Refuses (some n) = looked_up _ _ [] Frames.get_text_input_state

  get_memory_stats-Refuses : (size : Option ℕ) → Refuses s (engine_legacy_get_memory_stats h size s)
  unfolding engine_legacy_get_memory_stats
  get_memory_stats-Refuses none = refusal [] _
  get_memory_stats-Refuses (some n) = looked_up _ _ [] (succeed _)

  send_input-Refuses : (event : Option InputEvent) → Refuses s (engine_legacy_send_input h event s)
  unfolding engine_legacy_send_input
  send_input-Refuses none = refusal [] _
  send_input-Refuses (some event) = looked_up _ _ [] (Frames.send_input event)

  set_diagnostic_config-Refuses :
      (config : Option Config) (now now' : ℕ)
      → Refuses s (engine_legacy_set_diagnostic_config h config now now' s)
  unfolding engine_legacy_set_diagnostic_config
  set_diagnostic_config-Refuses none now now' = refusal [] _
  set_diagnostic_config-Refuses (some c) now now' =
      looked_up _ _ [] (Diagnostics.set_diagnostic_config c now now')

  mark_diagnostic_event-Refuses :
      (label : Option Text) (given : Bool) (now : ℕ)
      → Refuses s (engine_legacy_mark_diagnostic_event h label given now s)
  unfolding engine_legacy_mark_diagnostic_event
  mark_diagnostic_event-Refuses none given now = refusal [] _
  mark_diagnostic_event-Refuses (some label) given now =
      looked_up (not given) _ [] (Diagnostics.mark_diagnostic_event label now)

  get_startup_state-Refuses : (given : Bool) → Refuses s (engine_legacy_get_startup_state h given s)
  unfolding engine_legacy_get_startup_state
  get_startup_state-Refuses given = looked_up _ _ [] Life.get_startup_state

  read_frame_rgba-Refuses :
      (given : Bool) (size : ℕ) → Refuses s (engine_legacy_read_frame_rgba h given size s)
  unfolding engine_legacy_read_frame_rgba
  read_frame_rgba-Refuses given size = looked_up _ _ [] (Frames.read_frame_rgba size)

  get_host_native_window-Refuses :
      (given : Bool) → Refuses s (engine_legacy_get_host_native_window h given s)
  unfolding engine_legacy_get_host_native_window
  get_host_native_window-Refuses given = looked_up _ _ (0 ∷ []) Frames.get_host_native_window

  get_host_native_view-Refuses :
      (given : Bool) → Refuses s (engine_legacy_get_host_native_view h given s)
  unfolding engine_legacy_get_host_native_view
  get_host_native_view-Refuses given = looked_up _ _ (0 ∷ []) Frames.get_host_native_view

  copy_text_input_text-Refuses :
      (buffer : Bool) (size : ℕ) (written : Bool)
      → Refuses s (engine_legacy_copy_text_input_text h buffer size written s)
  unfolding engine_legacy_copy_text_input_text
  copy_text_input_text-Refuses buffer size written =
      looked_up _ _ (0 ∷ 0 ∷ []) Frames.copy_text_input_text

  get_frame_rendered_flag-Refuses :
      (given : Bool) → Refuses s (engine_legacy_get_frame_rendered_flag h given s)
  unfolding engine_legacy_get_frame_rendered_flag
  get_frame_rendered_flag-Refuses given = looked_up _ _ (0 ∷ []) (succeed _)

  get_plugin_debug_info-Refuses :
      (buffer : Bool) (size : ℕ) (written : Bool)
      → Refuses s (engine_legacy_get_plugin_debug_info h buffer size written s)
  unfolding engine_legacy_get_plugin_debug_info
  get_plugin_debug_info-Refuses buffer size written =
      looked_up _ _ [] (Frames.get_plugin_debug_info size)

  drain_diagnostic_events-Refuses :
      (buffer : Bool) (size : ℕ) (written : Bool)
      → Refuses s (engine_legacy_drain_diagnostic_events h buffer size written s)
  unfolding engine_legacy_drain_diagnostic_events
  drain_diagnostic_events-Refuses buffer size written =
      looked_up _ _ [] (Diagnostics.drain_diagnostic_events size)

  -- Every function of the stub that looks up the engine of its handle, but destroy and get_last_error,
  -- returns INVALID_ARGUMENT for a handle that is not live, whatever its other arguments are, and
  -- changes nothing but the calling thread's error.
  pub on_handle-Refuses : (call : HandleCall) → Refuses s (on_handle h call s)
  unfolding on_handle
  on_handle-Refuses (HandleCall.get_startup_state given) = get_startup_state-Refuses given
  on_handle-Refuses (HandleCall.read_frame_rgba given size) = read_frame_rgba-Refuses given size
  on_handle-Refuses (HandleCall.get_host_native_window given) = get_host_native_window-Refuses given
  on_handle-Refuses (HandleCall.get_host_native_view given) = get_host_native_view-Refuses given
  on_handle-Refuses (HandleCall.copy_text_input_text buffer size written) =
      copy_text_input_text-Refuses buffer size written
  on_handle-Refuses (HandleCall.get_frame_rendered_flag given) =
      get_frame_rendered_flag-Refuses given
  on_handle-Refuses (HandleCall.get_plugin_debug_info buffer size written) =
      get_plugin_debug_info-Refuses buffer size written
  on_handle-Refuses (HandleCall.drain_diagnostic_events buffer size written) =
      drain_diagnostic_events-Refuses buffer size written
  on_handle-Refuses (HandleCall.open_game path) = open_game-Refuses path
  on_handle-Refuses (HandleCall.set_option key value) = set_option-Refuses key value
  on_handle-Refuses (HandleCall.drain_startup_logs buffer size written) =
      drain_startup_logs-Refuses buffer size written
  on_handle-Refuses (HandleCall.get_frame_desc size) = get_frame_desc-Refuses size
  on_handle-Refuses (HandleCall.get_text_input_state size) = get_text_input_state-Refuses size
  on_handle-Refuses (HandleCall.get_memory_stats size) = get_memory_stats-Refuses size
  on_handle-Refuses (HandleCall.send_input event) = send_input-Refuses event
  on_handle-Refuses (HandleCall.set_diagnostic_config config now now') =
      set_diagnostic_config-Refuses config now now'
  on_handle-Refuses (HandleCall.mark_diagnostic_event label given now) =
      mark_diagnostic_event-Refuses label given now
  on_handle-Refuses (HandleCall.open_game_async path) =
      unfold engine_legacy_open_game_async in open_game-Refuses path
  on_handle-Refuses (HandleCall.set_surface_size width height) =
      unfold engine_legacy_set_surface_size in
      looked_up (width == 0 || height == 0) _ [] (Life.set_surface_size width height)
  on_handle-Refuses (HandleCall.tick delta_ms) =
      unfold engine_legacy_tick in locked-Refuses [] Life.tick
  on_handle-Refuses HandleCall.pause = unfold engine_legacy_pause in locked-Refuses [] Life.pause
  on_handle-Refuses HandleCall.resume = unfold engine_legacy_resume in locked-Refuses [] Life.resume
  on_handle-Refuses HandleCall.set_render_target_iosurface =
      unfold engine_legacy_set_render_target_iosurface in locked-Refuses [] (refuse _ _ _)
  on_handle-Refuses HandleCall.set_render_target_surface =
      unfold engine_legacy_set_render_target_surface in locked-Refuses [] (refuse _ _ _)
