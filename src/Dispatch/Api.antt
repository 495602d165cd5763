-- ===== src/Dispatch/Api.antt =====
-- Every call that a host can make into abi/src/engine_api_dispatch.cpp and the registry, as data,
-- with one step of a handle's startup thread beside them.
use aether_kiri.Prelude.{ℕ, ℤ, Bool, Option, none, some, List, [], ◌∷◌, Text}
use aether_kiri.Engine.Calls.{Result, Reply, plain, CreateDesc, InputEvent}
use aether_kiri.Engine.Provider.{Provider}
use aether_kiri.Engine.Services.{Services}
use aether_kiri.Registry.{engine_register_runtime_provider}
use aether_kiri.Dispatch.State.{World}
use aether_kiri.Dispatch.Route.{Api}
use aether_kiri.Dispatch.Queues.{engine_drain_startup_logs, engine_poll_platform_request}
use aether_kiri.Dispatch.Open.{
  engine_open_game, engine_open_game_async, startup_thread_step, engine_get_startup_state,
}
use aether_kiri.Dispatch.Lifecycle.{
  engine_install_legacy_services, engine_get_runtime_api_version, engine_create, engine_destroy,
}
use aether_kiri.Dispatch.Run.{engine_tick, engine_pause, engine_resume}
use aether_kiri.Dispatch.Options.{
  engine_set_option, engine_set_surface_size, engine_submit_platform_response,
}
use aether_kiri.Dispatch.Queries.{
  engine_get_frame_desc, engine_read_frame_rgba, engine_get_godot_native_frame_texture,
  engine_get_godot_presentation_state, engine_get_host_native_window, engine_get_host_native_view,
  engine_send_input, engine_get_text_input_state, engine_copy_text_input_text,
  engine_get_main_menu_json, engine_activate_menu_item, engine_set_render_target_iosurface,
  engine_set_render_target_surface, engine_get_frame_rendered_flag, engine_get_renderer_info,
  engine_get_memory_stats, engine_get_plugin_debug_info, engine_set_diagnostic_config,
  engine_mark_diagnostic_event, engine_drain_diagnostic_events, engine_get_last_error,
}
use aether_kiri.Dispatch.Media.{
  engine_media_open, engine_media_destroy, engine_media_play, engine_media_pause, engine_media_seek,
  engine_media_set_rate, engine_media_set_volume, engine_media_get_state,
  engine_media_get_subtitle_tracks_json, engine_media_extract_subtitle,
  engine_media_read_frame_rgba,
}

-- The first number is the handle that the call names.
pub data ApiCall (E : Type 0) : Type 0 where
  install_legacy_services : Option (Services E) → ApiCall E
  register_runtime_provider : Option (Provider E) → ApiCall E
  get_runtime_api_version : Bool → ApiCall E
  create : Option CreateDesc → Bool → ApiCall E
  destroy : ℕ → ApiCall E
  open_game : ℕ → Option Text → Option Text → ApiCall E
  open_game_async : ℕ → Option Text → Option Text → ApiCall E
  startup_thread : ℕ → ApiCall E
  get_startup_state : ℕ → Bool → ApiCall E
  drain_startup_logs : ℕ → Bool → ℕ → Bool → ApiCall E
  tick : ℕ → ℕ → ApiCall E
  pause : ℕ → ApiCall E
  resume : ℕ → ApiCall E
  set_option : ℕ → Option Text → Option Text → ApiCall E
  set_surface_size : ℕ → ℕ → ℕ → ApiCall E
  poll_platform_request : ℕ → ℕ → ℕ → Bool → ApiCall E
  submit_platform_response : ℕ → Option Text → Option Text → ApiCall E
  get_frame_desc : ℕ → ApiCall E
  read_frame_rgba : ℕ → ℕ → ApiCall E
  get_godot_native_frame_texture : ℕ → ApiCall E
  get_godot_presentation_state : ℕ → Bool → ApiCall E
  get_host_native_window : ℕ → ApiCall E
  get_host_native_view : ℕ → ApiCall E
  send_input : ℕ → Option InputEvent → ApiCall E
  get_text_input_state : ℕ → Option ℕ → ApiCall E
  copy_text_input_text : ℕ → Bool → ℕ → Bool → ApiCall E
  get_main_menu_json : ℕ → ℕ → ApiCall E
  activate_menu_item : ℕ → Option Text → ApiCall E
  set_render_target_iosurface : ℕ → ℕ → ℕ → ℕ → ApiCall E
  set_render_target_surface : ℕ → ℕ → ℕ → ℕ → ApiCall E
  get_frame_rendered_flag : ℕ → ApiCall E
  get_renderer_info : ℕ → ℕ → ApiCall E
  get_memory_stats : ℕ → Option ℕ → ApiCall E
  get_plugin_debug_info : ℕ → ℕ → ApiCall E
  set_diagnostic_config : ℕ → List ℕ → ApiCall E
  mark_diagnostic_event : ℕ → List ℕ → ApiCall E
  drain_diagnostic_events : ℕ → ℕ → ApiCall E
  get_last_error : ℕ → ApiCall E
  media_open : ℕ → Option Text → Bool → ApiCall E
  media_destroy : ℕ → ApiCall E
  media_play : ℕ → ApiCall E
  media_pause : ℕ → ApiCall E
  media_seek : ℕ → ℤ → ApiCall E
  media_set_rate : ℕ → ℕ → ApiCall E
  media_set_volume : ℕ → ℕ → ApiCall E
  media_get_state : ℕ → ApiCall E
  media_get_subtitle_tracks_json : ℕ → ℕ → ApiCall E
  media_extract_subtitle : ℕ → ℤ → Option Text → ApiCall E
  media_read_frame_rgba : ℕ → ℕ → ApiCall E

module _ {E : Type 0} where
  unfoldable pub install : Option (Services E) → Api E
  install services w =
      let (result, w') = engine_install_legacy_services services w in some (plain result, w')

  unfoldable pub register : Option (Provider E) → Api E
  register p w =
      let (result, registry) =
        engine_register_runtime_provider w.os w.build.artemis_enabled p w.registry in
      some (plain result, record w { registry = registry })

  abbrev pub as_reply : Option (Option Text × World E) → Option (Reply × World E)
  as_reply none = none
  as_reply (some (error, w)) = some (plain Result.ok, w)

  unfoldable pub last_error : ℕ → Api E
  last_error address w = as_reply (engine_get_last_error address w)

  unfoldable pub call : ApiCall E → Api E
  call (ApiCall.install_legacy_services s) = install s
  call (ApiCall.register_runtime_provider p) = register p
  call (ApiCall.get_runtime_api_version given) = engine_get_runtime_api_version given
  call (ApiCall.create desc given) = engine_create desc given
  call (ApiCall.destroy a) = engine_destroy a
  call (ApiCall.open_game a path script) = engine_open_game a path script
  call (ApiCall.open_game_async a path script) = engine_open_game_async a path script
  call (ApiCall.startup_thread a) = startup_thread_step a
  call (ApiCall.get_startup_state a given) = engine_get_startup_state a given
  call (ApiCall.drain_startup_logs a given size written) =
      engine_drain_startup_logs a given size written
  call (ApiCall.tick a delta_ms) = engine_tick a delta_ms
  call (ApiCall.pause a) = engine_pause a
  call (ApiCall.resume a) = engine_resume a
  call (ApiCall.set_option a key value) = engine_set_option a key value
  call (ApiCall.set_surface_size a width height) = engine_set_surface_size a width height
  call (ApiCall.poll_platform_request a operation_size argument_size given) =
      engine_poll_platform_request a operation_size argument_size given
  call (ApiCall.submit_platform_response a operation argument) =
      engine_submit_platform_response a operation argument
  call (ApiCall.get_frame_desc a) = engine_get_frame_desc a
  call (ApiCall.read_frame_rgba a size) = engine_read_frame_rgba a size
  call (ApiCall.get_godot_native_frame_texture a) = engine_get_godot_native_frame_texture a
  call (ApiCall.get_godot_presentation_state a given) = engine_get_godot_presentation_state a given
  call (ApiCall.get_host_native_window a) = engine_get_host_native_window a
  call (ApiCall.get_host_native_view a) = engine_get_host_native_view a
  call (ApiCall.send_input a event) = engine_send_input a event
  call (ApiCall.get_text_input_state a size) = engine_get_text_input_state a size
  call (ApiCall.copy_text_input_text a given size written) =
      engine_copy_text_input_text a given size written
  call (ApiCall.get_main_menu_json a size) = engine_get_main_menu_json a size
  call (ApiCall.activate_menu_item a path) = engine_activate_menu_item a path
  call (ApiCall.set_render_target_iosurface a id width height) =
      engine_set_render_target_iosurface a id width height
  call (ApiCall.set_render_target_surface a window width height) =
      engine_set_render_target_surface a window width height
  call (ApiCall.get_frame_rendered_flag a) = engine_get_frame_rendered_flag a
  call (ApiCall.get_renderer_info a size) = engine_get_renderer_info a size
  call (ApiCall.get_memory_stats a size) = engine_get_memory_stats a size
  call (ApiCall.get_plugin_debug_info a size) = engine_get_plugin_debug_info a size
  call (ApiCall.set_diagnostic_config a config) = engine_set_diagnostic_config a config
  call (ApiCall.mark_diagnostic_event a label) = engine_mark_diagnostic_event a label
  call (ApiCall.drain_diagnostic_events a size) = engine_drain_diagnostic_events a size
  call (ApiCall.get_last_error a) = last_error a
  call (ApiCall.media_open a path given) = engine_media_open a path given
  call (ApiCall.media_destroy m) = engine_media_destroy m
  call (ApiCall.media_play m) = engine_media_play m
  call (ApiCall.media_pause m) = engine_media_pause m
  call (ApiCall.media_seek m position) = engine_media_seek m position
  call (ApiCall.media_set_rate m rate) = engine_media_set_rate m rate
  call (ApiCall.media_set_volume m volume) = engine_media_set_volume m volume
  call (ApiCall.media_get_state m) = engine_media_get_state m
  call (ApiCall.media_get_subtitle_tracks_json m size) =
      engine_media_get_subtitle_tracks_json m size
  call (ApiCall.media_extract_subtitle m stream path) = engine_media_extract_subtitle m stream path
  call (ApiCall.media_read_frame_rgba m size) = engine_media_read_frame_rgba m size

  -- A host's calls in order, up to a fault.
  unfoldable pub calls : List (ApiCall E) → World E → Option (World E)
  unfolding call
  calls [] w = some w
  calls (c ∷ cs) w = elim (call c w) [ none ↦ none | some (reply, w') ↦ calls cs w' ]
