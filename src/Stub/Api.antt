-- ===== src/Stub/Api.antt =====
-- The functions of abi/src/engine_api_stub.cpp as calls, and sequences of them: those of the table
-- engine_stub_legacy_services, and engine_legacy_media_set_volume, which the table does not list.
use aether_kiri.Prelude.{
  ℕ, ℤ, Bool, true, Option, none, some, List, [], ◌∷◌, Text, text, ◌==◌, if◌then◌else◌, lookup,
  nat_key,
}
use aether_kiri.Engine.Calls.{CreateDesc, InputEvent, Reply, ok}
use aether_kiri.Stub.State.{Engine, Stub, Api, with_result}
use aether_kiri.Stub.Diagnostics.{
  Config, engine_legacy_set_diagnostic_config, engine_legacy_mark_diagnostic_event,
  engine_legacy_drain_diagnostic_events,
}
use aether_kiri.Stub.Life.{
  engine_legacy_get_runtime_api_version, engine_legacy_create, engine_legacy_destroy,
  engine_legacy_open_game, engine_legacy_open_game_async, engine_legacy_get_startup_state,
  engine_legacy_drain_startup_logs, engine_legacy_tick, engine_legacy_pause, engine_legacy_resume,
  engine_legacy_set_option, engine_legacy_set_surface_size,
}
use aether_kiri.Stub.Frames.{
  engine_legacy_get_frame_desc, engine_legacy_read_frame_rgba, engine_legacy_get_host_native_window,
  engine_legacy_get_host_native_view, engine_legacy_send_input, engine_legacy_get_text_input_state,
  engine_legacy_copy_text_input_text, engine_legacy_get_main_menu_json,
  engine_legacy_activate_menu_item, engine_legacy_set_render_target_iosurface,
  engine_legacy_set_render_target_surface, engine_legacy_get_frame_rendered_flag,
  engine_legacy_get_renderer_info, engine_legacy_get_memory_stats,
  engine_legacy_get_plugin_debug_info,
}
use aether_kiri.Stub.Media.{
  engine_legacy_media_open, engine_legacy_media_destroy, engine_legacy_media_play,
  engine_legacy_media_pause, engine_legacy_media_seek, engine_legacy_media_set_rate,
  engine_legacy_media_set_volume, engine_legacy_media_get_state,
  engine_legacy_media_get_subtitle_tracks_json, engine_legacy_media_extract_subtitle,
  engine_legacy_media_read_frame_rgba, engine_legacy_get_godot_native_frame_texture,
}

unfoldable pub last_error_found : Option Engine → Stub → Text × Stub
last_error_found none s =
    let message = text "engine handle is invalid or already destroyed" in
    (message, record s { thread_error = message })
last_error_found (some e) s = (e.last_error, s)

unfoldable pub engine_legacy_get_last_error : ℕ → Stub → Text × Stub
unfolding last_error_found
engine_legacy_get_last_error address s =
    if address == 0 then (s.thread_error, s) else last_error_found (lookup address s.engines) s

-- The host has no audio session and no textures of the KiriKiri engine.
abbrev pub engine_legacy_activate_audio_session_for_host : Bool
engine_legacy_activate_audio_session_for_host = true

abbrev pub engine_legacy_drain_texture_recycle : Stub → Stub
engine_legacy_drain_texture_recycle s = s

-- The calls that look at a handle and do nothing else before they check it but test their arguments.
pub data HandleCall : Type 0 where
  open_game open_game_async : Option Text → HandleCall
  get_startup_state : Bool → HandleCall
  drain_startup_logs : Bool → ℕ → Bool → HandleCall
  tick : ℕ → HandleCall
  pause resume : HandleCall
  set_option : Option Text → Option Text → HandleCall
  set_surface_size : ℕ → ℕ → HandleCall
  get_frame_desc : Option ℕ → HandleCall
  read_frame_rgba : Bool → ℕ → HandleCall
  get_host_native_window get_host_native_view : Bool → HandleCall
  send_input : Option InputEvent → HandleCall
  get_text_input_state : Option ℕ → HandleCall
  copy_text_input_text : Bool → ℕ → Bool → HandleCall
  set_render_target_iosurface set_render_target_surface : HandleCall
  get_frame_rendered_flag : Bool → HandleCall
  get_memory_stats : Option ℕ → HandleCall
  get_plugin_debug_info : Bool → ℕ → Bool → HandleCall
  set_diagnostic_config : Option Config → ℕ → ℕ → HandleCall
  mark_diagnostic_event : Option Text → Bool → ℕ → HandleCall
  drain_diagnostic_events : Bool → ℕ → Bool → HandleCall

-- The functions that do not look at an engine; some are given a handle. The handle of a media, which
-- no function looks at, is left out.
pub data FreeCall : Type 0 where
  get_runtime_api_version : Bool → FreeCall
  get_main_menu_json : ℕ → Bool → ℕ → Bool → FreeCall
  activate_menu_item : ℕ → Option Text → FreeCall
  get_renderer_info : ℕ → Bool → ℕ → FreeCall
  media_open : ℕ → Bool → FreeCall
  media_destroy media_play media_pause : FreeCall
  media_seek : ℤ → FreeCall
  media_set_rate media_set_volume : ℕ → FreeCall
  media_get_state : Option ℕ → FreeCall
  media_get_subtitle_tracks_json : Bool → ℕ → Bool → FreeCall
  media_extract_subtitle : ℤ → Option Text → FreeCall
  media_read_frame_rgba : ℕ → FreeCall
  get_godot_native_frame_texture : ℕ → FreeCall

pub data StubCall : Type 0 where
  create : Option CreateDesc → Bool → ℕ → StubCall
  destroy : ℕ → StubCall
  on : ℕ → HandleCall → StubCall
  free : FreeCall → StubCall
  get_last_error : ℕ → StubCall
  activate_audio_session_for_host drain_texture_recycle : StubCall

unfoldable pub on_handle : ℕ → HandleCall → Api
on_handle h (HandleCall.open_game path) = engine_legacy_open_game h path
on_handle h (HandleCall.open_game_async path) = engine_legacy_open_game_async h path
on_handle h (HandleCall.get_startup_state given) = engine_legacy_get_startup_state h given
on_handle h (HandleCall.drain_startup_logs buffer size written) =
    engine_legacy_drain_startup_logs h buffer size written
on_handle h (HandleCall.tick delta_ms) = engine_legacy_tick h delta_ms
on_handle h HandleCall.pause = engine_legacy_pause h
on_handle h HandleCall.resume = engine_legacy_resume h
on_handle h (HandleCall.set_option key value) = engine_legacy_set_option h key value
on_handle h (HandleCall.set_surface_size width height) =
    engine_legacy_set_surface_size h width height
on_handle h (HandleCall.get_frame_desc size) = engine_legacy_get_frame_desc h size
on_handle h (HandleCall.read_frame_rgba given size) = engine_legacy_read_frame_rgba h given size
on_handle h (HandleCall.get_host_native_window given) = engine_legacy_get_host_native_window h given
on_handle h (HandleCall.get_host_native_view given) = engine_legacy_get_host_native_view h given
on_handle h (HandleCall.send_input event) = engine_legacy_send_input h event
on_handle h (HandleCall.get_text_input_state size) = engine_legacy_get_text_input_state h size
on_handle h (HandleCall.copy_text_input_text buffer size written) =
    engine_legacy_copy_text_input_text h buffer size written
on_handle h HandleCall.set_render_target_iosurface = engine_legacy_set_render_target_iosurface h
on_handle h HandleCall.set_render_target_surface = engine_legacy_set_render_target_surface h
on_handle h (HandleCall.get_frame_rendered_flag given) =
    engine_legacy_get_frame_rendered_flag h given
on_handle h (HandleCall.get_memory_stats size) = engine_legacy_get_memory_stats h size
on_handle h (HandleCall.get_plugin_debug_info buffer size written) =
    engine_legacy_get_plugin_debug_info h buffer size written
on_handle h (HandleCall.set_diagnostic_config config now now') =
    engine_legacy_set_diagnostic_config h config now now'
on_handle h (HandleCall.mark_diagnostic_event label given now) =
    engine_legacy_mark_diagnostic_event h label given now
on_handle h (HandleCall.drain_diagnostic_events buffer size written) =
    engine_legacy_drain_diagnostic_events h buffer size written

unfoldable pub without_handle : FreeCall → Api
without_handle (FreeCall.get_runtime_api_version given) =
    engine_legacy_get_runtime_api_version given
without_handle (FreeCall.get_main_menu_json address buffer size written) =
    engine_legacy_get_main_menu_json address buffer size written
without_handle (FreeCall.activate_menu_item address path) =
    engine_legacy_activate_menu_item address path
without_handle (FreeCall.get_renderer_info address buffer size) =
    engine_legacy_get_renderer_info address buffer size
without_handle (FreeCall.media_open address given) = engine_legacy_media_open address given
without_handle FreeCall.media_destroy = engine_legacy_media_destroy
without_handle FreeCall.media_play = engine_legacy_media_play
without_handle FreeCall.media_pause = engine_legacy_media_pause
without_handle (FreeCall.media_seek position) = engine_legacy_media_seek position
without_handle (FreeCall.media_set_rate rate) = engine_legacy_media_set_rate rate
without_handle (FreeCall.media_set_volume volume) = engine_legacy_media_set_volume volume
without_handle (FreeCall.media_get_state size) = engine_legacy_media_get_state size
without_handle (FreeCall.media_get_subtitle_tracks_json buffer size written) =
    engine_legacy_media_get_subtitle_tracks_json buffer size written
without_handle (FreeCall.media_extract_subtitle stream path) =
    engine_legacy_media_extract_subtitle stream path
without_handle (FreeCall.media_read_frame_rgba size) = engine_legacy_media_read_frame_rgba size
without_handle (FreeCall.get_godot_native_frame_texture address) =
    engine_legacy_get_godot_native_frame_texture address

-- A function that gives no result code has the reply OK with what it returns.
abbrev pub reply_text : Text × Stub → Option (Reply × Stub)
reply_text (message, s) = some (with_result ok message, s)

unfoldable pub perform : StubCall → Api
unfolding on_handle without_handle engine_legacy_get_last_error
perform (create desc given address) s = engine_legacy_create desc given address s
perform (destroy h) s = engine_legacy_destroy h s
perform (on h call) s = on_handle h call s
perform (free call) s = without_handle call s
perform (get_last_error h) s = reply_text (engine_legacy_get_last_error h s)
perform activate_audio_session_for_host s =
    reply_text ((if engine_legacy_activate_audio_session_for_host then 1 else 0) ∷ [], s)
perform drain_texture_recycle s = reply_text ([], engine_legacy_drain_texture_recycle s)

-- A sequence of calls; nothing if one of them accesses an empty queue.
unfoldable pub perform_all : List StubCall → Stub → Option Stub
unfolding perform
perform_all [] s = some s
perform_all (c ∷ calls) s = elim (perform c s) [
  | none ↦ none
  | some (reply, s') ↦ perform_all calls s'
]
