-- ===== src/Dispatch/Queries.antt =====
-- The calls of abi/src/engine_api_dispatch.cpp that only go to the runtime: frames, windows, input,
-- menus, render targets, memory, text input, diagnostics, and engine_get_last_error.
use aether_kiri.Prelude.{
  ℕ, ◌/◌, ◌%◌, Bool, not, ◌||◌, Option, none, some, List, [], ◌∷◌, Text, text, ltb, ◌==◌,
  if◌then◌else◌, is_empty, lookup, nat_key,
}
use aether_kiri.Engine.Calls.{
  ok, invalid_argument, not_supported, Reply, plain, Call, Member, InputEvent,
}
use aether_kiri.Engine.Provider.{provider_has}
use aether_kiri.Dispatch.State.{Backend, Handle, World, Action, pure, ◌>>=◌, gets, on_ok}
use aether_kiri.Dispatch.Errors.{ensure_legacy}
use aether_kiri.Dispatch.Route.{Api, reject, locked, route, call_legacy, call_member, forward}

-- sizeof(engine_memory_stats_t) and sizeof(engine_text_input_state_t) with 64-bit pointers
abbrev memory_stats_size : ℕ
memory_stats_size = 160

abbrev pub text_input_state_size : ℕ
text_input_state_size = 88

-- The first number written, or the initial value.
abbrev first_or : ℕ → List ℕ → ℕ
first_or d [] = d
first_or d (x ∷ xs) = x

-- struct_size, ime_active, ime_mode, attention_point_valid, attention_x, attention_y,
-- text_available, text_utf8_bytes, selection_start, selection_end
abbrev snapshot : ℕ → ℕ → ℕ → List ℕ
snapshot active x y = text_input_state_size ∷ active ∷ 0 ∷ active ∷ x ∷ y ∷ 0 ∷ 0 ∷ 0 ∷ 0 ∷ []

module _ {E : Type 0} where
  unfoldable pub engine_get_frame_desc : ℕ → Api E
  unfolding forward
  engine_get_frame_desc address = forward address (text "get_frame_desc") Call.get_frame_desc

  unfoldable pub engine_read_frame_rgba : ℕ → ℕ → Api E
  unfolding forward
  engine_read_frame_rgba address size =
      forward address (text "read_frame_rgba") (Call.read_frame_rgba size)

  unfoldable pub engine_get_godot_native_frame_texture : ℕ → Api E
  unfolding forward
  engine_get_godot_native_frame_texture address =
      forward address (text "get_godot_native_frame_texture") Call.get_godot_native_frame_texture

  -- No flags, for the KiriKiri engine and for a provider without this member.
  unfoldable pub engine_get_godot_presentation_state : ℕ → Bool → Api E
  unfolding route call_member
  engine_get_godot_presentation_state address flags_given =
      if not flags_given
      then reject invalid_argument (text "Godot presentation state output is null")
      else route address (text "get_godot_presentation_state")
          (λ services env legacy. (env, record { result = ok; out = 0 ∷ [] }))
          (call_member Call.get_godot_presentation_state (record { result = ok; out = 0 ∷ [] }))

  unfoldable pub engine_get_host_native_window : ℕ → Api E
  unfolding forward
  engine_get_host_native_window address =
      forward address (text "get_host_native_window") Call.get_host_native_window

  unfoldable pub engine_get_host_native_view : ℕ → Api E
  unfolding forward
  engine_get_host_native_view address =
      forward address (text "get_host_native_view") Call.get_host_native_view

  unfoldable pub engine_send_input : ℕ → Option InputEvent → Api E
  unfolding forward
  engine_send_input address event = forward address (text "send_input") (Call.send_input event)

  -- The flag word of a provider that has no details.
  unfoldable pub text_input_from_flags : ℕ → Action E Reply
  text_input_from_flags flags = do
    width ← gets (λ h. h.surface_width)
    height ← gets (λ h. h.surface_height)
    let x = if width == 0 then 640 else width / 2
    let y = if height == 0 then 360 else height / 2
    pure (record { result = ok; out = if flags % 2 == 0 then snapshot 0 0 0 else snapshot 1 x y })

  unfoldable pub text_input_provider : Action E Reply
  unfolding call_member text_input_from_flags
  text_input_provider = do
    provider ← gets (λ h. h.provider)
    if provider_has provider Member.get_text_input_details
        then call_member Call.get_text_input_details (plain not_supported)
        else if not (provider_has provider Member.get_text_input_state)
        then pure (record { result = ok; out = snapshot 0 0 0 })
        else do
          reply ← call_member Call.get_text_input_state (plain not_supported)
          on_ok reply.result (text_input_from_flags (first_or 0 reply.out))

  -- `size` is the caller's struct_size; `none` is a null pointer.
  unfoldable pub engine_get_text_input_state : ℕ → Option ℕ → Api E
  unfolding route text_input_provider
  engine_get_text_input_state address none =
      reject invalid_argument (text "text input state output is null")
  engine_get_text_input_state address (some size) =
      if ltb size text_input_state_size
      then reject invalid_argument (text "engine_text_input_state_t.struct_size is too small")
      else route address (text "get_text_input_state")
          (λ services. services.invoke Call.get_text_input_state) text_input_provider

  -- The count and the buffer start as 0 and the empty text.
  unfoldable pub engine_copy_text_input_text : ℕ → Bool → ℕ → Bool → Api E
  unfolding route call_member
  engine_copy_text_input_text address buffer_given size written_given =
      if not buffer_given || size == 0 || not written_given
      then reject invalid_argument
          (text "engine_copy_text_input_text requires a buffer and byte count")
      else route address (text "copy_text_input_text")
          (λ services. services.invoke (Call.copy_text_input_text size))
          (call_member (Call.copy_text_input_text size) (record { result = ok; out = 0 ∷ 0 ∷ [] }))

  unfoldable pub engine_get_main_menu_json : ℕ → ℕ → Api E
  unfolding forward
  engine_get_main_menu_json address size =
      forward address (text "get_main_menu_json") (Call.get_main_menu_json size)

  unfoldable pub engine_activate_menu_item : ℕ → Option Text → Api E
  unfolding forward
  engine_activate_menu_item address path =
      forward address (text "activate_menu_item") (Call.activate_menu_item path)

  unfoldable pub engine_set_render_target_iosurface : ℕ → ℕ → ℕ → ℕ → Api E
  unfolding forward
  engine_set_render_target_iosurface address id width height =
      forward address (text "set_render_target_iosurface")
        (Call.set_render_target_iosurface id width height)

  unfoldable pub engine_set_render_target_surface : ℕ → ℕ → ℕ → ℕ → Api E
  unfolding forward
  engine_set_render_target_surface address window width height =
      forward address (text "set_render_target_surface")
        (Call.set_render_target_surface window width height)

  unfoldable pub engine_get_frame_rendered_flag : ℕ → Api E
  unfolding forward
  engine_get_frame_rendered_flag address =
      forward address (text "get_frame_rendered_flag") Call.get_frame_rendered_flag

  unfoldable pub engine_get_renderer_info : ℕ → ℕ → Api E
  unfolding forward
  engine_get_renderer_info address size =
      forward address (text "get_renderer_info") (Call.get_renderer_info size)

  unfoldable pub memory_stats_provider : Option ℕ → Action E Reply
  unfolding call_member
  memory_stats_provider none = pure (plain invalid_argument)
  memory_stats_provider (some size) =
      if ltb size memory_stats_size
      then pure (plain invalid_argument)
      else call_member Call.get_memory_stats (plain not_supported)

  -- `size` is the caller's struct_size. PopulateHostMemoryStats does nothing off Apple's systems.
  unfoldable pub engine_get_memory_stats : ℕ → Option ℕ → Api E
  unfolding route memory_stats_provider
  engine_get_memory_stats address size =
      route address (text "get_memory_stats") (λ services. services.invoke Call.get_memory_stats)
        (memory_stats_provider size)

  unfoldable pub engine_get_plugin_debug_info : ℕ → ℕ → Api E
  unfolding forward
  engine_get_plugin_debug_info address size =
      forward address (text "get_plugin_debug_info") (Call.get_plugin_debug_info size)

  -- Diagnostics go to the KiriKiri engine for every backend. `which` numbers the three members.
  unfoldable pub diagnostics_body : ℕ → List ℕ → Action E Reply
  unfolding ensure_legacy
  diagnostics_body which arguments = do
    ready ← ensure_legacy
    on_ok ready.result
        (call_legacy (λ services env legacy. services.diagnostics env legacy which arguments))

  unfoldable pub diagnostics : ℕ → ℕ → List ℕ → Api E
  unfolding locked diagnostics_body
  diagnostics address which arguments = locked address (diagnostics_body which arguments)

  unfoldable pub engine_set_diagnostic_config : ℕ → List ℕ → Api E
  unfolding diagnostics
  engine_set_diagnostic_config address config = diagnostics address 0 config

  unfoldable pub engine_mark_diagnostic_event : ℕ → List ℕ → Api E
  unfolding diagnostics
  engine_mark_diagnostic_event address label = diagnostics address 1 label

  unfoldable pub engine_drain_diagnostic_events : ℕ → ℕ → Api E
  unfolding diagnostics
  engine_drain_diagnostic_events address size = diagnostics address 2 (size ∷ [])

  -- The handle's own text, or that of its KiriKiri engine; the calling thread's text is empty here.
  unfoldable pub handle_last_error : Handle E → World E → Option (Option Text)
  handle_last_error h w =
      let own : Option (Option Text) = some (some h.last_error) in
      let engine : Option (Option Text) =
        (if h.legacy == 0 then some (some w.thread_error) else elim w.services [
          | none ↦ none
          | some s ↦ elim s.get_last_error [ none ↦ none | some f ↦ some (f w.env h.legacy) ]
        ]) in
      elim h.backend [
        | Backend.provider ↦ own
        | _ ↦ (if is_empty h.last_error then engine else own)
      ]

  abbrev pub with_world : World E → Option (Option Text) → Option (Option Text × World E)
  with_world w none = none
  with_world w (some error) = some (error, w)

  unfoldable pub last_error_of : Option (Handle E) → World E → Option (Option Text × World E)
  unfolding handle_last_error
  last_error_of none w =
      let message = text "engine handle is invalid or already destroyed" in
      some (some message, record w { thread_error = message })
  last_error_of (some h) w = with_world w (handle_last_error h w)

  -- The text, and the world, where a wrong handle leaves its own error.
  unfoldable pub engine_get_last_error : ℕ → World E → Option (Option Text × World E)
  unfolding last_error_of
  engine_get_last_error address w =
      if not (is_empty w.thread_error) || address == 0
      then some (some w.thread_error, w)
      else last_error_of (lookup address w.handles) w
