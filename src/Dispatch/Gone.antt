-- ===== src/Dispatch/Gone.antt =====
-- The functions of abi/src/engine_api_dispatch.cpp on a handle that was destroyed.
use aether_kiri.Prelude.{
  ℕ, ◌≡◌, ◌≢◌, refl, sym, subst, Bool, true, false, not, ◌||◌, Option, none, some, [], Text, arith,
  lookup, nat_key, ◌==◌, if◌then◌else◌, is_empty, option_or, ltb,
}
use aether_kiri.Engine.Calls.{invalid_argument, Reply, plain}
use aether_kiri.Engine.Services.{Services}
use aether_kiri.Dispatch.State.{World}
use aether_kiri.Dispatch.Route.{Api, reject, locked, route, forward}
use aether_kiri.Dispatch.Lifecycle.{engine_destroy}
use aether_kiri.Dispatch.Api.{ApiCall, call}
use aether_kiri.Dispatch.Queues.{engine_drain_startup_logs, engine_poll_platform_request}
use aether_kiri.Dispatch.Open.{
  engine_open_game, engine_open_game_async, startup_thread_step, engine_get_startup_state,
}
use aether_kiri.Dispatch.Run.{engine_tick, engine_pause, engine_resume}
use aether_kiri.Dispatch.Options.{
  engine_set_option, engine_set_surface_size, engine_submit_platform_response,
}
use aether_kiri.Dispatch.Queries.{
  engine_get_frame_desc, engine_read_frame_rgba, engine_get_godot_native_frame_texture,
  engine_get_godot_presentation_state, engine_get_host_native_window, engine_get_host_native_view,
  engine_send_input, engine_get_text_input_state, engine_copy_text_input_text,
  engine_get_main_menu_json, engine_activate_menu_item, engine_set_render_target_iosurface,
  engine_set_render_target_surface, engine_get_frame_rendered_flag, engine_get_renderer_info,
  engine_get_memory_stats, engine_get_plugin_debug_info, engine_set_diagnostic_config,
  engine_mark_diagnostic_event, engine_drain_diagnostic_events, diagnostics, text_input_state_size,
}
use aether_kiri.Dispatch.Media.{engine_media_open}
use aether_kiri.Dispatch.Invariant.Api.{Intact, Reaches}
use aether_kiri.Dispatch.Release.{IsWithout, Reaches-weaken, engine_destroy-IsWithout}

module _ {E : Type 0} where
  -- The handle of a call of a function that does its work on a live handle. engine_destroy, which
  -- accepts null, and engine_get_last_error are not such functions.
  abbrev pub handle_of : ApiCall E → Option ℕ
  handle_of (ApiCall.open_game a path script) = some a
  handle_of (ApiCall.open_game_async a path script) = some a
  handle_of (ApiCall.startup_thread a) = some a
  handle_of (ApiCall.get_startup_state a given) = some a
  handle_of (ApiCall.drain_startup_logs a given size written) = some a
  handle_of (ApiCall.tick a n) = some a
  handle_of (ApiCall.pause a) = some a
  handle_of (ApiCall.resume a) = some a
  handle_of (ApiCall.set_option a key value) = some a
  handle_of (ApiCall.set_surface_size a n m) = some a
  handle_of (ApiCall.poll_platform_request a n m given) = some a
  handle_of (ApiCall.submit_platform_response a operation argument) = some a
  handle_of (ApiCall.get_frame_desc a) = some a
  handle_of (ApiCall.read_frame_rgba a n) = some a
  handle_of (ApiCall.get_godot_native_frame_texture a) = some a
  handle_of (ApiCall.get_godot_presentation_state a given) = some a
  handle_of (ApiCall.get_host_native_window a) = some a
  handle_of (ApiCall.get_host_native_view a) = some a
  handle_of (ApiCall.send_input a event) = some a
  handle_of (ApiCall.get_text_input_state a size) = some a
  handle_of (ApiCall.copy_text_input_text a given size written) = some a
  handle_of (ApiCall.get_main_menu_json a n) = some a
  handle_of (ApiCall.activate_menu_item a path) = some a
  handle_of (ApiCall.set_render_target_iosurface a id n m) = some a
  handle_of (ApiCall.set_render_target_surface a window n m) = some a
  handle_of (ApiCall.get_frame_rendered_flag a) = some a
  handle_of (ApiCall.get_renderer_info a n) = some a
  handle_of (ApiCall.get_memory_stats a size) = some a
  handle_of (ApiCall.get_plugin_debug_info a n) = some a
  handle_of (ApiCall.set_diagnostic_config a config) = some a
  handle_of (ApiCall.mark_diagnostic_event a label) = some a
  handle_of (ApiCall.drain_diagnostic_events a n) = some a
  handle_of (ApiCall.media_open a path given) = some a
  handle_of _ = none

  -- The handle is given, not null and not live.
  abbrev pub IsDead : Option ℕ → World E → Type 0
  IsDead none w = ⊥
  IsDead (some a) w = (a ≢ 0) × (lookup a w.handles ≡ none)

  -- The calls that read the services table before they look at the handle, when there is no table.
  abbrev pub MayFault : ApiCall E → World E → Type 0
  MayFault (ApiCall.pause a) w = w.services ≡ none
  MayFault (ApiCall.resume a) w = w.services ≡ none
  MayFault _ w = ⊥

  -- INVALID_ARGUMENT, and no change but of the caller's error; a fault only where `F` holds.
  abbrev pub Rejects : Type 0 → World E → Option (Reply × World E) → Type 0
  Rejects F w none = F
  Rejects F w (some (reply, w')) =
      (message : Text) × (reply ≡ plain invalid_argument)
      × (w' ≡ record w { thread_error = message })

  -- The same as a record, from which `o` can be read off.
  record Refuses (F : Type 0) (w : World E) (o : Option (Reply × World E)) : Type 0 where
    pub rejects : Rejects F w o

  module _ (w : World E) where
    refused : {F : Type 0} → (message : Text) → Refuses F w (reject invalid_argument message w)
    refused message = record { rejects = (message, refl, refl) }

    branch-Refuses :
        {F : Type 0}
        → (b : Bool) (f g : Api E) → Refuses F w (f w)
        → Refuses F w (g w)
        → Refuses F w ((if b then f else g) w)
    branch-Refuses true f g h k = h
    branch-Refuses false f g h k = k

    not_null : (a : ℕ) → IsDead (some a) w → (a == 0) ≡ false
    not_null a d = ground (arith, d.0)

    served-Refuses :
        (s : Option (Services E)) (f : Services E → Option (Reply × World E))
        → ((t : Services E) → Refuses (s ≡ none) w (f t))
        → Refuses (s ≡ none) w (elim s [ none ↦ none | some t ↦ f t ])
    served-Refuses none f h = record { rejects = refl }
    served-Refuses (some t) f h = h t

    call-Refuses : (c : ApiCall E) → IsDead (handle_of c) w → Refuses (MayFault c w) w (call c w)
    unfolding engine_get_text_input_state call forward route diagnostics engine_activate_menu_item
        engine_copy_text_input_text engine_drain_diagnostic_events engine_drain_startup_logs
        engine_get_frame_desc engine_get_frame_rendered_flag engine_get_godot_native_frame_texture
        engine_get_godot_presentation_state engine_get_host_native_view
        engine_get_host_native_window engine_get_main_menu_json engine_get_memory_stats
        engine_get_plugin_debug_info engine_get_renderer_info engine_get_startup_state
        engine_mark_diagnostic_event engine_media_open engine_open_game engine_open_game_async
        engine_pause engine_poll_platform_request engine_read_frame_rgba engine_resume
        engine_send_input engine_set_diagnostic_config engine_set_option
        engine_set_render_target_iosurface engine_set_render_target_surface engine_set_surface_size
        engine_submit_platform_response engine_tick startup_thread_step locked
    call-Refuses (ApiCall.open_game a path script) d =
        branch-Refuses (is_empty (option_or path [])) _ _ (refused _)
          (rw (not_null a d, d.1) (refused _))
    call-Refuses (ApiCall.open_game_async a path script) d =
        branch-Refuses (is_empty (option_or path [])) _ _ (refused _)
          (rw (not_null a d, d.1) (refused _))
    call-Refuses (ApiCall.startup_thread a) d = rw (not_null a d, d.1) (refused _)
    call-Refuses (ApiCall.get_startup_state a given) d =
        branch-Refuses (not given) _ _ (refused _) (rw (not_null a d, d.1) (refused _))
    call-Refuses (ApiCall.drain_startup_logs a given size written) d =
        rw (not_null a d, d.1) (refused _)
    call-Refuses (ApiCall.tick a n) d = rw (not_null a d, d.1) (refused _)
    call-Refuses (ApiCall.pause a) d =
        served-Refuses w.services _ (λ t. rw (not_null a d, d.1) (refused _))
    call-Refuses (ApiCall.resume a) d =
        served-Refuses w.services _ (λ t. rw (not_null a d, d.1) (refused _))
    call-Refuses (ApiCall.set_option a key none) d = refused _
    call-Refuses (ApiCall.set_option a key (some value)) d =
        branch-Refuses (is_empty (option_or key [])) _ _ (refused _)
          (rw (not_null a d, d.1) (refused _))
    call-Refuses (ApiCall.set_surface_size a n m) d =
        branch-Refuses (n == 0 || m == 0) _ _ (refused _) (rw (not_null a d, d.1) (refused _))
    call-Refuses (ApiCall.poll_platform_request a n m given) d =
        branch-Refuses (not given) _ _ (refused _) (rw (not_null a d, d.1) (refused _))
    call-Refuses (ApiCall.submit_platform_response a operation argument) d =
        branch-Refuses (is_empty (option_or operation [])) _ _ (refused _)
          (rw (not_null a d, d.1) (refused _))
    call-Refuses (ApiCall.get_frame_desc a) d = rw (not_null a d, d.1) (refused _)
    call-Refuses (ApiCall.read_frame_rgba a n) d = rw (not_null a d, d.1) (refused _)
    call-Refuses (ApiCall.get_godot_native_frame_texture a) d = rw (not_null a d, d.1) (refused _)
    call-Refuses (ApiCall.get_godot_presentation_state a given) d =
        branch-Refuses (not given) _ _ (refused _) (rw (not_null a d, d.1) (refused _))
    call-Refuses (ApiCall.get_host_native_window a) d = rw (not_null a d, d.1) (refused _)
    call-Refuses (ApiCall.get_host_native_view a) d = rw (not_null a d, d.1) (refused _)
    call-Refuses (ApiCall.send_input a event) d = rw (not_null a d, d.1) (refused _)
    call-Refuses (ApiCall.get_text_input_state a none) d = refused _
    call-Refuses (ApiCall.get_text_input_state a (some n)) d =
        branch-Refuses (ltb n text_input_state_size) _ _ (refused _)
          (rw (not_null a d, d.1) (refused _))
    call-Refuses (ApiCall.copy_text_input_text a given size written) d =
        branch-Refuses (not given || size == 0 || not written) _ _ (refused _)
          (rw (not_null a d, d.1) (refused _))
    call-Refuses (ApiCall.get_main_menu_json a n) d = rw (not_null a d, d.1) (refused _)
    call-Refuses (ApiCall.activate_menu_item a path) d = rw (not_null a d, d.1) (refused _)
    call-Refuses (ApiCall.set_render_target_iosurface a id n m) d =
        rw (not_null a d, d.1) (refused _)
    call-Refuses (ApiCall.set_render_target_surface a window n m) d =
        rw (not_null a d, d.1) (refused _)
    call-Refuses (ApiCall.get_frame_rendered_flag a) d = rw (not_null a d, d.1) (refused _)
    call-Refuses (ApiCall.get_renderer_info a n) d = rw (not_null a d, d.1) (refused _)
    call-Refuses (ApiCall.get_memory_stats a size) d = rw (not_null a d, d.1) (refused _)
    call-Refuses (ApiCall.get_plugin_debug_info a n) d = rw (not_null a d, d.1) (refused _)
    call-Refuses (ApiCall.set_diagnostic_config a config) d = rw (not_null a d, d.1) (refused _)
    call-Refuses (ApiCall.mark_diagnostic_event a label) d = rw (not_null a d, d.1) (refused _)
    call-Refuses (ApiCall.drain_diagnostic_events a n) d = rw (not_null a d, d.1) (refused _)
    call-Refuses (ApiCall.media_open a path given) d =
        branch-Refuses (is_empty (option_or path []) || not given) _ _ (refused _)
          (rw (not_null a d, d.1) (refused _))
    call-Refuses _ d = absurd d

  pub engine_destroy-Rejects :
      (a : ℕ) (c : ApiCall E) (w : World E)
      → a ≢ 0
      → handle_of c ≡ some a
      → Intact w
      → Reaches (λ w'. Rejects (MayFault c w') w' (call c w')) (engine_destroy a w)
  engine_destroy-Rejects a c w ne named i =
      Reaches-weaken (IsWithout a w) _ (engine_destroy a w)
        (λ w' q. (call-Refuses w' c (subst (λ o. IsDead o w') (sym named) (ne, q.gone))).rejects)
        (engine_destroy-IsWithout a w i)
