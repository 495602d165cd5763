-- ===== src/Engine/Calls.antt =====
-- Results, plain structures and the calls of abi/include/engine_api.h. A `double` or an opaque
-- pointer that the host only passes on is a number, its bit pattern.
use aether_kiri.Prelude.{ℕ, ◌/◌, ◌%◌, ◌^◌, ℤ, Bool, true, false, Option, List, [], Text}

-- engine_result_t
pub data Result : Type 0 where
  ok invalid_argument invalid_state not_supported io_error internal_error : Result

abbrev pub is_ok : Result → Bool
is_ok ok = true
is_ok _ = false

-- engine_startup_state_t
pub data StartupState : Type 0 where
  idle running succeeded failed : StartupState

pub record CreateDesc : Type 0 where
  pub struct_size : ℕ
  pub api_version : ℕ
  pub writable_path : Option Text
  pub cache_path : Option Text
  pub user_data : ℕ

-- (version >> 24) & 0xff
abbrev pub major : ℕ → ℕ
major version = version / 2 ^ 24 % 256

abbrev pub engine_api_version : ℕ
engine_api_version = 0x01060000

-- sizeof(engine_create_desc_t) with 64-bit pointers
abbrev pub create_desc_size : ℕ
create_desc_size = 96

-- engine_input_event_type_t, with every other value as `other`
pub data EventType : Type 0 where
  pointer_down pointer_move pointer_up pointer_scroll : EventType
  key_down key_up text_input back : EventType
  other : ℕ → EventType

pub record InputEvent : Type 0 where
  pub struct_size : ℕ
  pub type : EventType
  pub timestamp_micros : ℕ
  pub x : ℕ
  pub y : ℕ
  pub delta_x : ℕ
  pub delta_y : ℕ
  pub pointer_id : ℤ
  pub button : ℤ
  pub key_code : ℤ
  pub modifiers : ℤ
  pub unicode_codepoint : ℕ

-- A call's result, and what it wrote through its output pointers.
pub record Reply : Type 0 where
  pub result : Result
  pub out : List ℕ

abbrev pub plain : Result → Reply
plain r = record { result = r; out = [] }

-- The optional members of engine_runtime_provider_v1_t, in the order of the structure.
pub data Member : Type 0 where
  pause resume set_option set_surface_size get_frame_desc read_frame_rgba : Member
  get_godot_native_frame_texture get_host_native_window get_host_native_view : Member
  send_input get_main_menu_json activate_menu_item : Member
  set_render_target_iosurface set_render_target_surface get_frame_rendered_flag : Member
  get_renderer_info get_memory_stats get_plugin_debug_info get_last_error : Member
  submit_platform_response get_text_input_state get_godot_presentation_state : Member
  get_text_input_details copy_text_input_text : Member

-- offsetof(engine_runtime_provider_v1_t, member) + sizeof(member) with 64-bit pointers.
unfoldable pub member_end : Member → ℕ
member_end pause = 88
member_end resume = 96
member_end set_option = 104
member_end set_surface_size = 112
member_end get_frame_desc = 120
member_end read_frame_rgba = 128
member_end get_godot_native_frame_texture = 136
member_end get_host_native_window = 144
member_end get_host_native_view = 152
member_end send_input = 160
member_end get_main_menu_json = 168
member_end activate_menu_item = 176
member_end set_render_target_iosurface = 184
member_end set_render_target_surface = 192
member_end get_frame_rendered_flag = 200
member_end get_renderer_info = 208
member_end get_memory_stats = 216
member_end get_plugin_debug_info = 224
member_end get_last_error = 232
member_end submit_platform_response = 304
member_end get_text_input_state = 312
member_end get_godot_presentation_state = 320
member_end get_text_input_details = 328
member_end copy_text_input_text = 336

-- A call of an optional member with its arguments: sizes, flags and texts; output pointers are left
-- out where the host always passes one.
pub data Call : Type 0 where
  pause resume get_frame_desc get_godot_native_frame_texture : Call
  get_host_native_window get_host_native_view get_frame_rendered_flag : Call
  get_memory_stats get_text_input_state get_godot_presentation_state : Call
  get_text_input_details : Call
  set_option : Text → Text → Call
  set_surface_size : ℕ → ℕ → Call
  read_frame_rgba get_main_menu_json get_renderer_info get_plugin_debug_info : ℕ → Call
  copy_text_input_text : ℕ → Call
  send_input : Option InputEvent → Call
  activate_menu_item : Option Text → Call
  set_render_target_iosurface set_render_target_surface : ℕ → ℕ → ℕ → Call
  submit_platform_response : Text → Text → Call

abbrev pub member_of : Call → Member
member_of Call.pause = Member.pause
member_of Call.resume = Member.resume
member_of Call.get_frame_desc = Member.get_frame_desc
member_of Call.get_godot_native_frame_texture = Member.get_godot_native_frame_texture
member_of Call.get_host_native_window = Member.get_host_native_window
member_of Call.get_host_native_view = Member.get_host_native_view
member_of Call.get_frame_rendered_flag = Member.get_frame_rendered_flag
member_of Call.get_memory_stats = Member.get_memory_stats
member_of Call.get_text_input_state = Member.get_text_input_state
member_of Call.get_godot_presentation_state = Member.get_godot_presentation_state
member_of Call.get_text_input_details = Member.get_text_input_details
member_of (Call.set_option key value) = Member.set_option
member_of (Call.set_surface_size w h) = Member.set_surface_size
member_of (Call.read_frame_rgba size) = Member.read_frame_rgba
member_of (Call.get_main_menu_json size) = Member.get_main_menu_json
member_of (Call.get_renderer_info size) = Member.get_renderer_info
member_of (Call.get_plugin_debug_info size) = Member.get_plugin_debug_info
member_of (Call.copy_text_input_text size) = Member.copy_text_input_text
member_of (Call.send_input event) = Member.send_input
member_of (Call.activate_menu_item path) = Member.activate_menu_item
member_of (Call.set_render_target_iosurface id w h) = Member.set_render_target_iosurface
member_of (Call.set_render_target_surface window w h) = Member.set_render_target_surface
member_of (Call.submit_platform_response operation argument) = Member.submit_platform_response

-- The calls on a media handle.
pub data MediaCall : Type 0 where
  play pause : MediaCall
  seek : ℤ → MediaCall
  set_rate set_volume : ℕ → MediaCall
  get_state : MediaCall
  get_subtitle_tracks_json : ℕ → MediaCall
  extract_subtitle : ℤ → Option Text → MediaCall
  read_frame_rgba : ℕ → MediaCall
