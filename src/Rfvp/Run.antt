-- ===== src/Rfvp/Run.antt =====
-- Sequences of calls on one rfvp runtime (bridge/rfvp_runtime/src/rfvp_runtime_provider.cpp), as the
-- table of its Provider function lists them.
use aether_kiri.Prelude.{ℕ, Bool, Option, List, [], ◌∷◌, Text}
use aether_kiri.Engine.Calls.{InputEvent}
use aether_kiri.Rfvp.State.{Adapter, State}
use aether_kiri.Rfvp.Calls
use aether_kiri.Rfvp.Calls.{Answer}

pub data Call : Type 0 where
  open_game : Option Text → Option Text → Call
  tick : ℕ → Call
  pause resume : Call
  set_option : Option Text → Option Text → Call
  set_surface_size : ℕ → ℕ → Call
  get_frame_desc : Option ℕ → Call
  read_frame_rgba : Bool → ℕ → Call
  get_native_frame_texture : Bool → Call
  send_input : Option InputEvent → Call
  get_frame_rendered_flag : Bool → Call
  get_renderer_info : Bool → ℕ → Call
  get_text_input_state : Bool → Call

module _ {E : Type 0} (a : Adapter E) where
  unfoldable pub perform : Call → State E → Answer E
  perform (open_game path startup) = Calls.open_game a path startup
  perform (tick delta) = Calls.tick a delta
  perform pause = Calls.pause a
  perform resume = Calls.resume a
  perform (set_option key value) = Calls.option a key value
  perform (set_surface_size width height) = Calls.resize a width height
  perform (get_frame_desc size) = Calls.get_frame_desc a size
  perform (read_frame_rgba given size) = Calls.read_frame_rgba a given size
  perform (get_native_frame_texture given) = Calls.get_native_frame_texture a given
  perform (send_input event) = Calls.send_input a event
  perform (get_frame_rendered_flag given) = Calls.get_frame_rendered_flag a given
  perform (get_renderer_info given size) = Calls.get_renderer_info a given size
  perform (get_text_input_state given) = Calls.get_text_input_state a given

  unfoldable pub perform_all : List Call → State E → State E
  unfolding perform
  perform_all [] s = s
  perform_all (c ∷ calls) s = perform_all calls (perform c s).state
