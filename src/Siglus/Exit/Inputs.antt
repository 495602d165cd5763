-- ===== src/Siglus/Exit/Inputs.antt =====
-- A game that asked to be left (bridge/siglus_runtime/src/siglus_runtime_provider.cpp): input and
-- queries.
use aether_kiri.Prelude.{
  ℕ, ℤ, pos, pos_part, ◌-◌, leb_ℤ, ltb_ℤ, Bool, true, false, not, ◌&&◌, ◌||◌, Option, none, some,
  List, ◌++◌, Text, text, ltb, ◌==◌,
}
use aether_kiri.Engine.Calls.{EventType, InputEvent, invalid_argument, not_supported}
use aether_kiri.Siglus.State.{Shell, State, TextState, CacheStats, call}
use aether_kiri.Siglus.Input.{
  send_input, dispatch_event, press_key, type_text, input_event_size, and_then, is_cancel,
  is_scalar, c_string, encode_utf8,
}
use aether_kiri.Siglus.Queries.{
  memory_stats_size, text_input_state_size, copy_string, get_frame_rendered_flag, get_renderer_info,
  cache_reply, get_memory_stats, debug_reply, get_debug_info, details_reply, get_text_input_details,
  get_text_input_state, copy_text_input_text, submit_platform_response, texture_reply,
  get_native_frame_texture,
}
use aether_kiri.Siglus.Exit.Rules.{
  HasLeft, Leaves, answer-Leaves, branch-Leaves, outside, fail-Leaves, ok_or-Leaves, call-Leaves,
}

module _ {E : Type 0} (a : Shell E) where
  pub press_key-Leaves :
      (code : ℤ) (pressed : Bool) (s : State E) → HasLeft s → Leaves (press_key a code pressed s)
  unfolding press_key
  press_key-Leaves code pressed s h =
      branch-Leaves a (leb_ℤ (pos 0x200) code && ltb_ℤ code (pos 0x220)) _ _
        (call-Leaves a (text "siglus input dispatch")
          (λ ak. a.joypad_button ak (pos_part code - 0x200) pressed) s h)
        (call-Leaves a (text "siglus input dispatch") (λ ak. a.key ak code pressed) s h)

  pub dispatched-Leaves :
      (f : ℕ → E → E × ℤ) (s : State E)
      → HasLeft s
      → Leaves (call a (text "siglus input dispatch") f s)
  dispatched-Leaves f s h = call-Leaves a (text "siglus input dispatch") f s h

  pub dispatch_event-Leaves :
      (event : InputEvent) (type : EventType) (s : State E)
      → HasLeft s
      → Leaves (dispatch_event a event type s)
  unfolding dispatch_event type_text
  dispatch_event-Leaves event EventType.pointer_down s h =
      dispatched-Leaves
        (and_then a (λ ak. a.mouse_move ak event.x event.y)
          (λ ak. a.mouse_button ak event.button true))
        s h
  dispatch_event-Leaves event EventType.pointer_up s h =
      branch-Leaves a (is_cancel event.modifiers) _ _
        (call-Leaves a (text "siglus pointer cancellation") a.pointer_cancel s h)
        (dispatched-Leaves
          (and_then a (λ ak. a.mouse_move ak event.x event.y)
            (λ ak. a.mouse_button ak event.button false))
          s h)
  dispatch_event-Leaves event EventType.pointer_move s h =
      dispatched-Leaves (λ ak. a.mouse_move ak event.x event.y) s h
  dispatch_event-Leaves event EventType.pointer_scroll s h =
      dispatched-Leaves (λ ak. a.mouse_wheel ak (a.to_int32 event.delta_y)) s h
  dispatch_event-Leaves event EventType.key_down s h = press_key-Leaves event.key_code true s h
  dispatch_event-Leaves event EventType.key_up s h = press_key-Leaves event.key_code false s h
  dispatch_event-Leaves event EventType.text_input s h =
      branch-Leaves a (not (is_scalar event.unicode_codepoint)) _ _
        (answer-Leaves a invalid_argument s h)
        (dispatched-Leaves (λ ak. a.text_input ak (c_string (encode_utf8 event.unicode_codepoint)))
          s h)
  dispatch_event-Leaves event EventType.back s h =
      dispatched-Leaves
        (and_then a (λ ak. a.key ak (pos 0x1b) true) (λ ak. a.key ak (pos 0x1b) false)) s h
  dispatch_event-Leaves event (EventType.other n) s h = answer-Leaves a invalid_argument s h

  pub send_input-Leaves :
      (event : Option InputEvent) (s : State E) → HasLeft s → Leaves (send_input a event s)
  unfolding send_input
  send_input-Leaves none s h = answer-Leaves a _ s h
  send_input-Leaves (some event) s h =
      branch-Leaves a
        (((s.runtime.ak == 0) || not s.runtime.opened) || ltb event.struct_size input_event_size) _
        _ (answer-Leaves a invalid_argument s h) (dispatch_event-Leaves event event.type s h)

  pub copy_string-Leaves :
      (value : Text) (given : Bool) (size : ℕ) (count : Bool) (s : State E)
      → HasLeft s
      → Leaves (copy_string value given size count s)
  unfolding copy_string
  copy_string-Leaves value given size count s h =
      branch-Leaves a (not given || size == 0) _ _ (answer-Leaves a invalid_argument s h)
        (record { state = h })

  pub rendered_flag-Leaves :
      (given : Bool) (s : State E) → HasLeft s → Leaves (get_frame_rendered_flag a given s)
  unfolding get_frame_rendered_flag
  rendered_flag-Leaves given s h =
      branch-Leaves a (not given) _ _ (answer-Leaves a invalid_argument s h) (record { state = h })

  pub cache_reply-Leaves :
      (stats : CacheStats) (s : State E) → HasLeft s → Leaves (cache_reply a stats s)
  unfolding cache_reply
  cache_reply-Leaves stats s h =
      branch-Leaves a (ltb_ℤ stats.code (pos 0)) _ _
        (record { state = (fail-Leaves a (text "siglus cache stats") stats.code s h).state })
        (record { state = h })

  pub get_memory_stats-Leaves :
      (size : Option ℕ) (s : State E) → HasLeft s → Leaves (get_memory_stats a size s)
  unfolding get_memory_stats
  get_memory_stats-Leaves none s h = answer-Leaves a _ s h
  get_memory_stats-Leaves (some size) s h =
      let (env, stats) = a.cache_stats s.runtime.ak s.env in
      branch-Leaves a (ltb size memory_stats_size) _ _ (answer-Leaves a invalid_argument s h)
        (cache_reply-Leaves stats (record s { env = env }) (outside a env s h))

  pub debug_reply-Leaves :
      (code : ℤ) (details : Text) (given : Bool) (size : ℕ) (count : Bool) (s : State E)
      → HasLeft s
      → Leaves (debug_reply a code details given size count s)
  unfolding debug_reply
  debug_reply-Leaves code details given size count s h =
      branch-Leaves a (ltb_ℤ code (pos 0)) _ _ (fail-Leaves a (text "siglus debug info") code s h)
        (copy_string-Leaves (text "runtime=siglus " ++ details) given size count s h)

  pub details_reply-Leaves :
      (t : TextState) (s : State E) → HasLeft s → Leaves (details_reply a t s)
  unfolding details_reply
  details_reply-Leaves t s h =
      branch-Leaves a (ltb_ℤ t.code (pos 0)) _ _
        (fail-Leaves a (text "siglus text input state") t.code s h) (record { state = h })

  pub get_text_input_details-Leaves :
      (size : Option ℕ) (s : State E) → HasLeft s → Leaves (get_text_input_details a size s)
  unfolding get_text_input_details
  get_text_input_details-Leaves none s h = answer-Leaves a _ s h
  get_text_input_details-Leaves (some size) s h =
      let (env, t) = a.text_input_state s.runtime.ak s.env in
      branch-Leaves a (ltb size text_input_state_size) _ _ (answer-Leaves a invalid_argument s h)
        (details_reply-Leaves t (record s { env = env }) (outside a env s h))

  pub get_text_input_state-Leaves :
      (given : Bool) (s : State E) → HasLeft s → Leaves (get_text_input_state a given s)
  unfolding get_text_input_state
  get_text_input_state-Leaves given s h =
      branch-Leaves a (not given) _ _ (answer-Leaves a invalid_argument s h)
        (record { state = (get_text_input_details-Leaves (some text_input_state_size) s h).state })

  pub texture_reply-Leaves :
      (o : Option (List ℕ)) (s : State E) → HasLeft s → Leaves (texture_reply a o s)
  texture_reply-Leaves none s h = answer-Leaves a _ s h
  texture_reply-Leaves (some outputs) s h = record {
    state = record { opened = h.opened; terminated = h.terminated };
  }

  pub native_texture-Leaves :
      (given : Bool) (s : State E) → HasLeft s → Leaves (get_native_frame_texture a given s)
  unfolding get_native_frame_texture
  native_texture-Leaves given s h =
      branch-Leaves a (not given) _ _ (answer-Leaves a invalid_argument s h) (
        branch-Leaves a (not s.runtime.shared_current) _ _ (answer-Leaves a not_supported s h)
          (texture_reply-Leaves (a.get_shared s.env) s h))

  pub copy_text-Leaves :
      (size : ℕ) (s : State E) → HasLeft s → Leaves (copy_text_input_text a size s)
  unfolding copy_text_input_text
  copy_text-Leaves size s h =
      let (env, (code, bytes)) = a.copy_text_input_text s.runtime.ak size s.env in
      record {
        state =
            (ok_or-Leaves a (text "siglus copy input text") code (record s { env = env })
              (outside a env s h)).state;
      }

  pub debug_info-Leaves :
      (given : Bool) (size : ℕ) (count : Bool) (s : State E)
      → HasLeft s
      → Leaves (get_debug_info a given size count s)
  unfolding get_debug_info
  debug_info-Leaves given size count s h =
      let (env, (code, details)) = a.debug_info s.runtime.ak s.env in
      debug_reply-Leaves code details given size count (record s { env = env }) (outside a env s h)

  pub platform_response-Leaves :
      (operation argument : Text) (s : State E)
      → HasLeft s
      → Leaves (submit_platform_response a operation argument s)
  unfolding submit_platform_response
  platform_response-Leaves operation argument s h =
      call-Leaves a (text "siglus platform response")
        (λ ak. a.submit_platform_response ak operation argument) s h

  pub renderer_info-Leaves :
      (given : Bool) (size : ℕ) (s : State E)
      → HasLeft s
      → Leaves (get_renderer_info a given size s)
  unfolding get_renderer_info
  renderer_info-Leaves given size s h = copy_string-Leaves _ given size false s h
