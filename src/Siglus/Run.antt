-- ===== src/Siglus/Run.antt =====
-- Sequences of calls on one runtime, as MakeProvider of
-- bridge/siglus_runtime/src/siglus_runtime_provider.cpp lists the functions. The functions that only
-- return NOT_SUPPORTED, or OK with the presentation state 0, are `unsupported` and `presentation`.
use aether_kiri.Prelude.{ℕ, Bool, Option, List, [], ◌∷◌, Text, if◌then◌else◌}
use aether_kiri.Engine.Calls.{InputEvent, ok, not_supported}
use aether_kiri.Siglus.State.{Shell, State, Answer, answer}
use aether_kiri.Siglus.Open
use aether_kiri.Siglus.Frames
use aether_kiri.Siglus.Controls
use aether_kiri.Siglus.Input
use aether_kiri.Siglus.Queries

-- `unsupported` stands for get_host_native_window, get_host_native_view, get_main_menu_json,
-- activate_menu_item and the two set_render_target functions.
pub data Call : Type 0 where
  open_game : Option Text → Call
  tick : ℕ → Call
  pause resume unsupported : Call
  set_option : Option Text → Option Text → Call
  set_surface_size : ℕ → ℕ → Call
  get_frame_desc : Option ℕ → Call
  read_frame : Option (List ℕ) → Call
  get_native_frame_texture : Bool → Call
  send_input : Option InputEvent → Call
  get_frame_rendered_flag : Bool → Call
  get_renderer_info : Bool → ℕ → Call
  get_memory_stats : Option ℕ → Call
  get_debug_info : Bool → ℕ → Bool → Call
  submit_platform_response : Text → Text → Call
  get_text_input_state : Bool → Call
  get_text_input_details : Option ℕ → Call
  copy_text_input_text : ℕ → Call
  get_presentation_state : Bool → Call

module _ {E : Type 0} (a : Shell E) where
  unfoldable pub perform : Call → State E → Answer E
  perform (open_game path) s = Open.open_game a path s
  perform (tick delta) s = Frames.tick a delta s
  perform pause s = Controls.pause a s
  perform resume s = Controls.resume a s
  perform unsupported s = answer not_supported s
  perform (set_option key value) s = Controls.set_option a key value s
  perform (set_surface_size width height) s = Controls.set_surface_size a width height s
  perform (get_frame_desc size) s = Frames.get_frame_desc a size s
  perform (read_frame pixels) s = Frames.read_frame a pixels s
  perform (get_native_frame_texture given) s = Queries.get_native_frame_texture a given s
  perform (send_input event) s = Input.send_input a event s
  perform (get_frame_rendered_flag given) s = Queries.get_frame_rendered_flag a given s
  perform (get_renderer_info given size) s = Queries.get_renderer_info a given size s
  perform (get_memory_stats size) s = Queries.get_memory_stats a size s
  perform (get_debug_info given size count) s = Queries.get_debug_info a given size count s
  perform (submit_platform_response operation argument) s =
      Queries.submit_platform_response a operation argument s
  perform (get_text_input_state given) s = Queries.get_text_input_state a given s
  perform (get_text_input_details size) s = Queries.get_text_input_details a size s
  perform (copy_text_input_text size) s = Queries.copy_text_input_text a size s
  perform (get_presentation_state given) s = record (answer ok s) {
    out = if given then 0 ∷ [] else [];
  }

  unfoldable pub perform_all : List Call → State E → State E
  unfolding perform
  perform_all [] s = s
  perform_all (c ∷ calls) s = perform_all calls (perform c s).state
