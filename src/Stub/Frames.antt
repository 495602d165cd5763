-- ===== src/Stub/Frames.antt =====
-- Frames, input and host queries of abi/src/engine_api_stub.cpp.
use aether_kiri.Prelude.{
  ℕ, ◌+◌, ◌-◌, ◌*◌, ◌%◌, ◌^◌, Bool, true, false, not, ◌||◌, Option, none, some, [], ◌∷◌, ◌++◌, Text,
  text, ltb, ◌==◌, if◌then◌else◌, length, take, is_empty,
}
use aether_kiri.Engine.Calls.{invalid_argument, invalid_state, not_supported, EventType, InputEvent}
use aether_kiri.Stub.State.{
  is_opened, is_paused, Body, Api, reject, accept, succeed, refuse, locked, in_game, not_destroyed,
  with_result, Guarded,
}

-- Sizes of engine_frame_desc_t, engine_input_event_t, engine_text_input_state_t and
-- engine_memory_stats_t with 64-bit pointers.
abbrev frame_desc_size : ℕ
frame_desc_size = 96

abbrev input_event_size : ℕ
input_event_size = 104

abbrev text_input_state_size : ℕ
text_input_state_size = 88

abbrev memory_stats_size : ℕ
memory_stats_size = 160

-- The reply is width, height, stride_bytes (a `uint32_t`), pixel_format and frame_serial.
unfoldable pub get_frame_desc : Body
unfolding not_destroyed succeed
get_frame_desc = not_destroyed (λ g.
    succeed
      (g.engine.surface_width
        ∷ g.engine.surface_height
        ∷ (g.engine.surface_width * 4 % 2 ^ 32)
        ∷ 1
        ∷ g.engine.frame_serial
        ∷ [])
      g)

-- `none` is a null pointer; otherwise the caller's struct_size.
unfoldable pub engine_legacy_get_frame_desc : ℕ → Option ℕ → Api
unfolding reject locked get_frame_desc
engine_legacy_get_frame_desc address none =
    reject invalid_argument [] (text "out_frame_desc is null")
engine_legacy_get_frame_desc address (some struct_size) =
    if ltb struct_size frame_desc_size
    then reject invalid_argument [] (text "engine_frame_desc_t.struct_size is too small")
    else locked address [] get_frame_desc

-- static_cast<size_t>(width) * static_cast<size_t>(height) * 4u
abbrev required_size : Guarded → ℕ
required_size g = g.engine.surface_width * g.engine.surface_height * 4 % 2 ^ 64

-- The reply is the number of bytes set to 0.
unfoldable pub read_frame_rgba : ℕ → Body
unfolding in_game refuse succeed
read_frame_rgba size =
    in_game [] (text "engine_open_game must succeed before engine_read_frame_rgba") (λ g.
      if ltb size (required_size g)
      then refuse invalid_argument []
          (text "out_pixels_size is smaller than required frame buffer size") g
      else succeed (required_size g ∷ []) g)

unfoldable pub engine_legacy_read_frame_rgba : ℕ → Bool → ℕ → Api
unfolding reject locked read_frame_rgba
engine_legacy_read_frame_rgba address pixels_given size =
    if not pixels_given
    then reject invalid_argument [] (text "out_pixels is null")
    else locked address [] (read_frame_rgba size)

-- The window pointer is set to null before the handle is looked at.
unfoldable pub get_host_native_window : Body
unfolding in_game refuse
get_host_native_window =
    in_game (0 ∷ []) (text "engine_open_game must succeed before engine_get_host_native_window")
      (refuse not_supported (0 ∷ []) (text "engine_get_host_native_window is not supported"))

unfoldable pub engine_legacy_get_host_native_window : ℕ → Bool → Api
unfolding reject locked get_host_native_window
engine_legacy_get_host_native_window address window_given =
    if not window_given
    then reject invalid_argument [] (text "out_window_handle is null")
    else locked address (0 ∷ []) get_host_native_window

unfoldable pub get_host_native_view : Body
unfolding in_game refuse
get_host_native_view =
    in_game (0 ∷ []) (text "engine_open_game must succeed before engine_get_host_native_view")
      (refuse not_supported (0 ∷ []) (text "engine_get_host_native_view is not supported"))

unfoldable pub engine_legacy_get_host_native_view : ℕ → Bool → Api
unfolding reject locked get_host_native_view
engine_legacy_get_host_native_view address view_given =
    if not view_given
    then reject invalid_argument [] (text "out_view_handle is null")
    else locked address (0 ∷ []) get_host_native_view

-- The cases of the switch.
abbrev is_supported : EventType → Bool
is_supported (EventType.other type) = false
is_supported _ = true

unfoldable pub send_input : InputEvent → Body
unfolding refuse succeed
send_input event g =
    if is_paused g.engine.state
    then refuse invalid_state [] (text "engine is paused") g
    else if not (is_opened g.engine.state)
    then refuse invalid_state [] (text "engine_open_game must succeed before engine_send_input") g
    else if not (is_supported event.type)
    then refuse not_supported [] (text "unsupported input event type") g
    else succeed [] g

unfoldable pub engine_legacy_send_input : ℕ → Option InputEvent → Api
unfolding reject locked send_input
engine_legacy_send_input address none = reject invalid_argument [] (text "event is null")
engine_legacy_send_input address (some event) =
    if ltb event.struct_size input_event_size
    then reject invalid_argument [] (text "engine_input_event_t.struct_size is too small")
    else locked address [] (send_input event)

-- The reply is struct_size; all other members are 0.
unfoldable pub get_text_input_state : Body
unfolding in_game succeed
get_text_input_state =
    in_game [] (text "engine_open_game must succeed before engine_get_text_input_state")
      (succeed (text_input_state_size ∷ []))

unfoldable pub engine_legacy_get_text_input_state : ℕ → Option ℕ → Api
unfolding reject locked get_text_input_state
engine_legacy_get_text_input_state address none =
    reject invalid_argument [] (text "out_state is null")
engine_legacy_get_text_input_state address (some struct_size) =
    if ltb struct_size text_input_state_size
    then reject invalid_argument [] (text "engine_text_input_state_t.struct_size is too small")
    else locked address [] get_text_input_state

-- The terminator and the byte count are written before the handle is looked at.
unfoldable pub copy_text_input_text : Body
unfolding in_game succeed
copy_text_input_text =
    in_game (0 ∷ 0 ∷ []) (text "engine_open_game must succeed before engine_copy_text_input_text")
      (succeed (0 ∷ 0 ∷ []))

unfoldable pub engine_legacy_copy_text_input_text : ℕ → Bool → ℕ → Bool → Api
unfolding reject locked copy_text_input_text
engine_legacy_copy_text_input_text address buffer_given size written_given =
    if (not buffer_given || size == 0) || not written_given
    then reject invalid_argument []
        (text "engine_copy_text_input_text requires a buffer and byte count")
    else locked address (0 ∷ 0 ∷ []) copy_text_input_text

-- The handle is not looked at. The reply is the byte count and the text with its terminator.
unfoldable pub engine_legacy_get_main_menu_json : ℕ → Bool → ℕ → Bool → Api
unfolding reject accept
engine_legacy_get_main_menu_json address buffer_given size written_given =
    if not written_given
    then reject invalid_argument [] (text "out_bytes_written is null")
    else if not buffer_given || size == 0
    then reject invalid_argument [] (text "out_buffer is null or buffer_size is 0")
    else let menu = take (size - 1) (text "[]") in accept (length menu ∷ (menu ++ 0 ∷ []))

-- The handle is not looked at.
unfoldable pub engine_legacy_activate_menu_item : ℕ → Option Text → Api
unfolding reject
engine_legacy_activate_menu_item address none =
    reject invalid_argument [] (text "item_path_utf8 is null or empty")
engine_legacy_activate_menu_item address (some path) =
    if is_empty path
    then reject invalid_argument [] (text "item_path_utf8 is null or empty")
    else reject not_supported [] (text "engine_activate_menu_item is not supported in stub build")

unfoldable pub engine_legacy_set_render_target_iosurface : ℕ → Api
unfolding locked refuse
engine_legacy_set_render_target_iosurface address = locked address [] (
    refuse not_supported []
      (text "engine_set_render_target_iosurface is not supported in stub build"))

unfoldable pub engine_legacy_set_render_target_surface : ℕ → Api
unfolding locked refuse
engine_legacy_set_render_target_surface address = locked address [] (
    refuse not_supported []
      (text "engine_set_render_target_surface is not supported in stub build"))

-- The flag is set to 0 before the handle is looked at.
unfoldable pub engine_legacy_get_frame_rendered_flag : ℕ → Bool → Api
unfolding reject locked succeed
engine_legacy_get_frame_rendered_flag address flag_given =
    if not flag_given
    then reject invalid_argument [] (text "out_flag is null")
    else locked address (0 ∷ []) (succeed (0 ∷ []))

-- The handle is not looked at. The reply is the text with its terminator; std::strncpy fills what is
-- left of the buffer with 0.
unfoldable pub engine_legacy_get_renderer_info : ℕ → Bool → ℕ → Api
unfolding reject accept
engine_legacy_get_renderer_info address buffer_given size =
    if not buffer_given || size == 0
    then reject invalid_argument [] (text "out_buffer is null or buffer_size is 0")
    else accept (take (size - 1) (text "Stub (no runtime)") ++ 0 ∷ [])

-- The reply is struct_size; all other members are 0.
unfoldable pub engine_legacy_get_memory_stats : ℕ → Option ℕ → Api
unfolding reject locked succeed
engine_legacy_get_memory_stats address none = reject invalid_argument [] (text "out_stats is null")
engine_legacy_get_memory_stats address (some struct_size) =
    if ltb struct_size memory_stats_size
    then reject invalid_argument [] (text "engine_memory_stats_t.struct_size is too small")
    else locked address [] (succeed (memory_stats_size ∷ []))

abbrev plugin_payload : Bool → Text
plugin_payload tracing =
    text "{\"tracing_enabled\":"
    ++ (text (if tracing then "true" else "false")
        ++ (text ",\"method_calls\":0,\"property_gets\":0,"
            ++ (text "\"property_sets\":0,\"load_succeeded\":0,\"load_failed\":0,"
                ++ (text "\"load_fallback\":0,\"missing_members\":0,\"loaded_plugins\":[],"
                    ++ (text "\"failed_plugins\":[],\"fallback_plugins\":[],"
                        ++ text "\"recent_missing_members\":[]}")))))

-- A buffer that is too small is an error of the thread only. The reply is the byte count and the text
-- with its terminator.
unfoldable pub get_plugin_debug_info : ℕ → Body
unfolding succeed
get_plugin_debug_info size g =
    let payload = plugin_payload g.engine.plugin_tracing_enabled in
    if ltb size (length payload + 1)
    then some (
      with_result invalid_argument (0 ∷ 0 ∷ []),
      record g { thread_error = text "plugin debug output buffer is too small" },
    )
    else succeed (length payload ∷ (payload ++ 0 ∷ [])) g

unfoldable pub engine_legacy_get_plugin_debug_info : ℕ → Bool → ℕ → Bool → Api
unfolding reject locked get_plugin_debug_info
engine_legacy_get_plugin_debug_info address buffer_given size written_given =
    if (not buffer_given || size == 0) || not written_given
    then reject invalid_argument [] (text "plugin debug output buffer is invalid")
    else locked address [] (get_plugin_debug_info size)
