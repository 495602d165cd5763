-- ===== src/Dispatch/Invariant/Every.antt =====
-- The invariant through all calls of the API of abi/src/engine_api_dispatch.cpp, and their sequences.
use aether_kiri.Prelude.{
  ℕ, Bool, true, false, not, ◌||◌, Option, none, some, List, [], ◌∷◌, Text, text, lookup, nat_key,
  ◌==◌, is_empty, option_or, if◌then◌else◌,
}
use aether_kiri.Engine.Calls.{Result, Reply, plain, Call, MediaCall}
use aether_kiri.Dispatch.State.{Handle, World, pure, ◌>>◌}
use aether_kiri.Dispatch.Route.{accept}
use aether_kiri.Dispatch.Queues.{
  poll_request, engine_drain_startup_logs, engine_poll_platform_request,
}
use aether_kiri.Dispatch.Open.{
  open_game, open_game_async, startup_state_body, thread_step, engine_open_game,
  engine_open_game_async, startup_thread_step, engine_get_startup_state,
}
use aether_kiri.Dispatch.Lifecycle.{engine_get_runtime_api_version}
use aether_kiri.Dispatch.Run.{engine_tick}
use aether_kiri.Dispatch.Options.{
  set_option, set_surface_size, submit_response, engine_set_option, engine_set_surface_size,
  engine_submit_platform_response,
}
use aether_kiri.Dispatch.Queries.{
  text_input_provider, engine_get_frame_desc, engine_read_frame_rgba,
  engine_get_godot_native_frame_texture, engine_get_godot_presentation_state,
  engine_get_host_native_window, engine_get_host_native_view, engine_send_input,
  engine_get_text_input_state, engine_copy_text_input_text, engine_get_main_menu_json,
  engine_activate_menu_item, engine_set_render_target_iosurface, engine_set_render_target_surface,
  engine_get_frame_rendered_flag, engine_get_renderer_info, engine_get_memory_stats,
  engine_get_plugin_debug_info, diagnostics, engine_set_diagnostic_config,
  engine_mark_diagnostic_event, engine_drain_diagnostic_events, engine_get_last_error,
  handle_last_error, with_world, last_error_of,
}
use aether_kiri.Dispatch.Media.{
  open_media, close_media, engine_media_open, engine_media_destroy, engine_media_play,
  engine_media_pause, engine_media_seek, engine_media_set_rate, engine_media_set_volume,
  engine_media_get_state, engine_media_get_subtitle_tracks_json, engine_media_extract_subtitle,
  engine_media_read_frame_rgba,
}
use aether_kiri.Dispatch.Api.{ApiCall, as_reply, last_error, call, calls}
use aether_kiri.Dispatch.Keeps.{Keeps-pure, Keeps-bind}
use aether_kiri.Dispatch.Invariant.Rules.{call_member-Sound}
use aether_kiri.Dispatch.Invariant.Bodies.{
  thread_step-Sound, startup_state-Sound, open_game-Alive, open_game_async-Alive,
}
use aether_kiri.Dispatch.Invariant.Requests.{
  tick_provider-Sound, set_option-Sound, set_surface_size-Sound, submit_response-Sound,
  drain_logs-Sound, text_input-Sound, memory_stats-Sound, diagnostics-Sound, open_media-Sound,
  close_media-Sound, poll_request-Sound,
}
use aether_kiri.Dispatch.Invariant.Calls.{
  install-Safe, register-Safe, create-Safe, with_owner-Safe, route_media-Safe, destroy-Safe,
  pause-Safe, resume-Safe,
}
use aether_kiri.Dispatch.Invariant.Api.{
  Intact, Reaches, Safe, reject-Safe, locked-Safe, route-Safe, forward-Safe, guard-Safe,
}

module _ {E : Type 0} where
  with_world-Intact :
      (w : World E) (o : Option (Option Text))
      → Intact w
      → Reaches Intact (as_reply (with_world w o))
  with_world-Intact w none i = tt
  with_world-Intact w (some error) i = i

  last_error_of-Intact :
      (w : World E) (o : Option (Handle E))
      → Intact w
      → Reaches Intact (as_reply (last_error_of o w))
  unfolding last_error_of
  last_error_of-Intact w none i = i
  last_error_of-Intact w (some h) i = with_world-Intact w (handle_last_error h w) i

  last_error-Safe : (a : ℕ) → Safe {E = E} (last_error a)
  unfolding last_error engine_get_last_error
  last_error-Safe a = record {
    at = λ w i.
        by_guard w i (not (is_empty w.thread_error) || a == 0)
          (last_error_of-Intact w (lookup a w.handles) i);
  }
    where
      by_guard :
          (w : World E)
          → Intact w
          → (b : Bool) → Reaches Intact (as_reply (last_error_of (lookup a w.handles) w))
          → Reaches Intact (
              as_reply
                (if b then some (some w.thread_error, w) else last_error_of (lookup a w.handles) w))
      by_guard w i true l = i
      by_guard w i false l = l

  set_option-Safe : (a : ℕ) (key value : Option Text) → Safe {E = E} (engine_set_option a key value)
  unfolding engine_set_option
  set_option-Safe a key none = reject-Safe _ _
  set_option-Safe a key (some value) =
      guard-Safe _ _ _ (reject-Safe _ _)
        (locked-Safe a (set_option (option_or key []) value) (λ s hs. set_option-Sound _ _))

  text_input-Safe : (a : ℕ) (size : Option ℕ) → Safe {E = E} (engine_get_text_input_state a size)
  unfolding engine_get_text_input_state
  text_input-Safe a none = reject-Safe _ _
  text_input-Safe a (some size) = guard-Safe _ _ _ (reject-Safe _ _) (
      route-Safe a (text "get_text_input_state")
        (λ services. services.invoke Call.get_text_input_state) text_input_provider
        (λ s hs. text_input-Sound))

  diagnostics-Safe :
      (a which : ℕ) (arguments : List ℕ) → Safe {E = E} (diagnostics a which arguments)
  unfolding diagnostics
  diagnostics-Safe a which arguments = locked-Safe a _ (λ s hs. diagnostics-Sound which arguments)

  accept-Safe : (r : Reply) → Safe {E = E} (accept r)
  accept-Safe r = record { at = λ w i. i }

  thread_step-Safe : (a : ℕ) → Safe {E = E} (startup_thread_step a)
  unfolding startup_thread_step
  thread_step-Safe a =
      locked-Safe a (thread_step >> pure (plain Result.ok))
        (λ s hs. Keeps-bind _ _ thread_step-Sound (λ _. Keeps-pure _))

  call-Safe : (c : ApiCall E) → Safe (call c)
  unfolding call engine_get_runtime_api_version engine_open_game engine_open_game_async
      engine_get_startup_state engine_drain_startup_logs engine_tick engine_set_surface_size
      engine_poll_platform_request engine_submit_platform_response engine_get_frame_desc
      engine_read_frame_rgba engine_get_godot_native_frame_texture
      engine_get_godot_presentation_state engine_get_host_native_window engine_get_host_native_view
      engine_send_input engine_copy_text_input_text engine_get_main_menu_json
      engine_activate_menu_item engine_set_render_target_iosurface engine_set_render_target_surface
      engine_get_frame_rendered_flag engine_get_renderer_info engine_get_memory_stats
      engine_get_plugin_debug_info engine_set_diagnostic_config engine_mark_diagnostic_event
      engine_drain_diagnostic_events engine_media_open engine_media_destroy engine_media_play
      engine_media_pause engine_media_seek engine_media_set_rate engine_media_set_volume
      engine_media_get_state engine_media_get_subtitle_tracks_json engine_media_extract_subtitle
      engine_media_read_frame_rgba
  call-Safe (ApiCall.install_legacy_services s) = install-Safe s
  call-Safe (ApiCall.register_runtime_provider p) = register-Safe p
  call-Safe (ApiCall.get_runtime_api_version given) =
      guard-Safe _ _ _ (reject-Safe _ _) (accept-Safe _)
  call-Safe (ApiCall.create desc given) = create-Safe desc given
  call-Safe (ApiCall.destroy a) = destroy-Safe a
  call-Safe (ApiCall.open_game a path script) =
      guard-Safe _ _ _ (reject-Safe _ _)
        (locked-Safe a (open_game (option_or path []) script) (λ s hs. open_game-Alive _ script))
  call-Safe (ApiCall.open_game_async a path script) = guard-Safe _ _ _ (reject-Safe _ _) (
      locked-Safe a (open_game_async (option_or path []) script)
        (λ s hs. open_game_async-Alive _ script))
  call-Safe (ApiCall.startup_thread a) = thread_step-Safe a
  call-Safe (ApiCall.get_startup_state a given) =
      guard-Safe _ _ _ (reject-Safe _ _)
        (locked-Safe a startup_state_body (λ s hs. startup_state-Sound))
  call-Safe (ApiCall.drain_startup_logs a given size written) =
      route-Safe a _ _ _ (λ s hs. drain_logs-Sound given size written)
  call-Safe (ApiCall.tick a delta_ms) = route-Safe a _ _ _ (λ s hs. tick_provider-Sound delta_ms)
  call-Safe (ApiCall.pause a) = pause-Safe a
  call-Safe (ApiCall.resume a) = resume-Safe a
  call-Safe (ApiCall.set_option a key value) = set_option-Safe a key value
  call-Safe (ApiCall.set_surface_size a width height) =
      guard-Safe _ _ _ (reject-Safe _ _)
        (locked-Safe a (set_surface_size width height) (λ s hs. set_surface_size-Sound _ _))
  call-Safe (ApiCall.poll_platform_request a operation_size argument_size given) =
      guard-Safe _ _ _ (reject-Safe _ _) (
        locked-Safe a (poll_request operation_size argument_size)
          (λ s hs. poll_request-Sound operation_size argument_size))
  call-Safe (ApiCall.submit_platform_response a operation argument) =
      guard-Safe _ _ _ (reject-Safe _ _) (
        locked-Safe a (submit_response (option_or operation []) (option_or argument []))
          (λ s hs. submit_response-Sound _ _))
  call-Safe (ApiCall.get_godot_presentation_state a given) =
      guard-Safe _ _ _ (reject-Safe _ _)
        (route-Safe a _ _ _ (λ s hs. call_member-Sound Call.get_godot_presentation_state _))
  call-Safe (ApiCall.get_text_input_state a size) = text_input-Safe a size
  call-Safe (ApiCall.copy_text_input_text a given size written) =
      guard-Safe _ _ _ (reject-Safe _ _)
        (route-Safe a _ _ _ (λ s hs. call_member-Sound (Call.copy_text_input_text size) _))
  call-Safe (ApiCall.get_memory_stats a size) = route-Safe a _ _ _ (λ s hs. memory_stats-Sound size)
  call-Safe (ApiCall.set_diagnostic_config a config) = diagnostics-Safe a 0 config
  call-Safe (ApiCall.mark_diagnostic_event a label) = diagnostics-Safe a 1 label
  call-Safe (ApiCall.drain_diagnostic_events a size) = diagnostics-Safe a 2 (size ∷ [])
  call-Safe (ApiCall.get_last_error a) = last_error-Safe a
  call-Safe (ApiCall.media_open a path given) =
      guard-Safe _ _ _ (reject-Safe _ _)
        (locked-Safe a (open_media a (option_or path [])) (λ s hs. open_media-Sound _ _))
  call-Safe (ApiCall.media_destroy m) =
      guard-Safe _ _ _ (accept-Safe _)
        (with_owner-Safe m (close_media m) (λ s hs. close_media-Sound m))
  call-Safe (ApiCall.media_play m) =
      route_media-Safe m (text "legacy media player failed to play media") MediaCall.play
  call-Safe (ApiCall.media_pause m) =
      route_media-Safe m (text "legacy media player failed to pause media") MediaCall.pause
  call-Safe (ApiCall.media_seek m position) =
      route_media-Safe m (text "legacy media player failed to seek media") (MediaCall.seek position)
  call-Safe (ApiCall.media_set_rate m rate) =
      route_media-Safe m (text "legacy media player failed to set playback rate")
        (MediaCall.set_rate rate)
  call-Safe (ApiCall.media_set_volume m volume) =
      route_media-Safe m (text "legacy media player failed to set volume")
        (MediaCall.set_volume volume)
  call-Safe (ApiCall.media_get_state m) =
      route_media-Safe m (text "legacy media player failed to read media state") MediaCall.get_state
  call-Safe (ApiCall.media_get_subtitle_tracks_json m size) =
      route_media-Safe m (text "legacy media player failed to list subtitle tracks")
        (MediaCall.get_subtitle_tracks_json size)
  call-Safe (ApiCall.media_extract_subtitle m stream path) =
      route_media-Safe m (text "legacy media player failed to extract subtitles")
        (MediaCall.extract_subtitle stream path)
  call-Safe (ApiCall.media_read_frame_rgba m size) =
      route_media-Safe m (text "legacy media player failed to read video frame")
        (MediaCall.read_frame_rgba size)
  call-Safe (ApiCall.get_frame_desc a) =
      forward-Safe a (text "get_frame_desc") (Call.get_frame_desc)
  call-Safe (ApiCall.read_frame_rgba a size) =
      forward-Safe a (text "read_frame_rgba") (Call.read_frame_rgba size)
  call-Safe (ApiCall.get_godot_native_frame_texture a) =
      forward-Safe a (text "get_godot_native_frame_texture") (Call.get_godot_native_frame_texture)
  call-Safe (ApiCall.get_host_native_window a) =
      forward-Safe a (text "get_host_native_window") (Call.get_host_native_window)
  call-Safe (ApiCall.get_host_native_view a) =
      forward-Safe a (text "get_host_native_view") (Call.get_host_native_view)
  call-Safe (ApiCall.send_input a event) =
      forward-Safe a (text "send_input") (Call.send_input event)
  call-Safe (ApiCall.get_main_menu_json a size) =
      forward-Safe a (text "get_main_menu_json") (Call.get_main_menu_json size)
  call-Safe (ApiCall.activate_menu_item a path) =
      forward-Safe a (text "activate_menu_item") (Call.activate_menu_item path)
  call-Safe (ApiCall.set_render_target_iosurface a id width height) =
      forward-Safe a (text "set_render_target_iosurface")
        (Call.set_render_target_iosurface id width height)
  call-Safe (ApiCall.set_render_target_surface a window width height) =
      forward-Safe a (text "set_render_target_surface")
        (Call.set_render_target_surface window width height)
  call-Safe (ApiCall.get_frame_rendered_flag a) =
      forward-Safe a (text "get_frame_rendered_flag") (Call.get_frame_rendered_flag)
  call-Safe (ApiCall.get_renderer_info a size) =
      forward-Safe a (text "get_renderer_info") (Call.get_renderer_info size)
  call-Safe (ApiCall.get_plugin_debug_info a size) =
      forward-Safe a (text "get_plugin_debug_info") (Call.get_plugin_debug_info size)

  -- Every call of the API keeps the invariant: from a state in which at most 256 requests wait at each
  -- live handle, a handle without a services table has no KiriKiri engine and no media, a handle on a
  -- provider has that provider and a runtime, and null is not live, a call that does not fault leads
  -- to such a state again, whatever providers, services and the system do.
  pub call-Intact : (c : ApiCall E) (w : World E) → Intact w → Reaches Intact (call c w)
  call-Intact c w i = (call-Safe c).at w i

  -- The invariant after a run, unless it faulted.
  abbrev pub EndsIntact : Option (World E) → Type 0
  EndsIntact none = Unit
  EndsIntact (some w) = Intact w

  reached :
      (r : Option (Reply × World E)) (k : World E → Option (World E))
      → Reaches Intact r
      → ((w : World E) → Intact w → EndsIntact (k w))
      → EndsIntact (elim r [ none ↦ none | some (reply, w) ↦ k w ])
  reached none k i next = tt
  reached (some (reply, w)) k i next = next w i

  -- The same for any sequence of calls, startup threads in between: if none of them faults, the
  -- sequence ends in such a state.
  pub calls-Intact : (cs : List (ApiCall E)) (w : World E) → Intact w → EndsIntact (calls cs w)
  unfolding calls
  calls-Intact [] w i = i
  calls-Intact (c ∷ cs) w i = reached (call c w) (calls cs) (call-Intact c w i) (calls-Intact cs)
