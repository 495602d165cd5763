-- ===== src/Rfvp/Calls.antt =====
-- The members of the rfvp provider's table (bridge/rfvp_runtime/src/rfvp_runtime_provider.cpp).
use aether_kiri.Prelude.{
  ℕ, ◌+◌, ◌*◌, ◌%◌, ◌^◌, pos, negsuc, Bool, true, false, not, ◌&&◌, ◌||◌, Option, none, some, List,
  [], ◌∷◌, Text, text, eq_text, if◌then◌else◌, ltb, ◌==◌, length, take, option_or, ◌++◌,
}
use aether_kiri.Engine.Calls.{InputEvent}
use aether_kiri.Rfvp.State.{
  Code, ok, invalid_argument, invalid_state, not_supported, is_ok, FrameReply, frame_code, GpuReply,
  Adapter, Runtime, State, result, call,
}

-- Sizes of engine_frame_desc_t, engine_input_event_t and engine_runtime_host_v1_t with 64-bit
-- pointers.
abbrev pub frame_desc_size : ℕ
frame_desc_size = 96

abbrev input_event_size : ℕ
input_event_size = 104

-- What a call writes through its output pointers.
pub record Answer (E : Type 0) : Type 0 where
  pub state : State E
  pub code : Code
  pub out : List ℕ

-- What the options are called.
pub data OptionKey : Type 0 where
  default_font rfvp_encoding rfvp_renderer : OptionKey

abbrev pub known_key : Text → Option OptionKey
known_key key =
    if eq_text key (text "default_font")
    then some OptionKey.default_font
    else if eq_text key (text "rfvp_encoding")
    then some OptionKey.rfvp_encoding
    else if eq_text key (text "rfvp_renderer")
    then some OptionKey.rfvp_renderer
    else none

-- key.rfind("rfvp_", 0) == 0
abbrev pub is_rfvp_key : Text → Bool
is_rfvp_key key = eq_text (take 5 key) (text "rfvp_")

unfoldable pub is_encoding : Text → Bool
is_encoding value =
    eq_text value (text "sjis") || (eq_text value (text "gbk") || eq_text value (text "utf8"))

unfoldable pub is_renderer : Text → Bool
is_renderer value =
    eq_text value (text "auto") || (eq_text value (text "gpu") || eq_text value (text "cpu"))

module _ {E : Type 0} where
  abbrev pub current : OptionKey → Runtime E → Text
  current OptionKey.default_font r = r.font
  current OptionKey.rfvp_encoding r = r.encoding
  current OptionKey.rfvp_renderer r = r.renderer

  abbrev fail : Code → Text → Runtime E → Runtime E × Code
  fail code message r = (record r { error = message }, code)

  -- The assignments, with the tests of the values.
  unfoldable pub assign : OptionKey → Text → Runtime E → Runtime E × Code
  unfolding is_encoding is_renderer
  assign OptionKey.default_font value r = (record r { font = value }, ok)
  assign OptionKey.rfvp_encoding value r =
      if not (is_encoding value)
      then fail invalid_argument (text "rfvp_encoding must be sjis, gbk or utf8") r
      else (record r { encoding = value }, ok)
  assign OptionKey.rfvp_renderer value r =
      if not (is_renderer value)
      then fail invalid_argument (text "rfvp_renderer must be auto, gpu or cpu") r
      else (record r { renderer = value }, ok)

  unfoldable pub set_known : OptionKey → Text → Runtime E → Runtime E × Code
  unfolding assign
  set_known key value r =
      if eq_text value (current key r)
      then (r, ok)
      else if r.opened
      then fail invalid_state
          (text "rfvp font, encoding and renderer must be set before opening a game") r
      else assign key value r

  unfoldable pub set_found : Option OptionKey → Text → Text → Runtime E → Runtime E × Code
  unfolding set_known
  set_found none key value r = (r, if is_rfvp_key key then not_supported else ok)
  set_found (some k) key value r = set_known k value r

  -- Option, with a runtime, a key and a value.
  unfoldable pub set_option : Text → Text → Runtime E → Runtime E × Code
  unfolding set_found
  set_option key value r = set_found (known_key key) key value r

  module _ (a : Adapter E) where
    abbrev pub plain : State E × Code → Answer E
    plain (s, code) = record { state = s; code = code; out = [] }

    abbrev pub rejected : State E → Answer E
    rejected s = record { state = s; code = invalid_argument; out = [] }

    -- Create, where `struct_size` tests hold: a new runtime. `gpu` says whether the GPU bridge is
    -- registered.
    unfoldable pub create : Bool → Option (ℕ → Text → E → E) → Option Text → E → State E
    create gpu log writable env =
        let (env', core) = a.new_core gpu env in
        record {
          env = env';
          runtime = record {
            core = core;
            host_log = log;
            writable = option_or writable [];
            font = [];
            encoding = text "sjis";
            renderer = text "auto";
            error = [];
            read_serial = 0;
            opened = false;
          };
        }

    -- `~Runtime` of Destroy.
    unfoldable pub destroy : State E → E
    destroy s = a.free_core s.runtime.core s.env

    abbrev pub mark_opened : State E × Code → State E × Code
    mark_opened (s, code) =
        (if is_ok code then record s { runtime = record s.runtime { opened = true } } else s, code)

    unfoldable pub open_game : Option Text → Option Text → State E → Answer E
    unfolding call
    open_game none startup s = rejected s
    open_game (some path) startup s = plain (
        mark_opened (
          call a
            (λ core.
              a.open_core core path startup s.runtime.writable s.runtime.font s.runtime.encoding
                s.runtime.renderer)
            s))

    unfoldable pub tick : ℕ → State E → Answer E
    unfolding call
    tick delta s = plain (call a (λ core. a.tick_core core delta) s)

    unfoldable pub pause : State E → Answer E
    unfolding call
    pause s = plain (call a (λ core. a.pause_core core true) s)

    unfoldable pub resume : State E → Answer E
    unfolding call
    resume s = plain (call a (λ core. a.pause_core core false) s)

    -- The key and the value; a null option is one with null pointers.
    unfoldable pub option : Option Text → Option Text → State E → Answer E
    unfolding set_option
    option none value s = rejected s
    option (some key) none s = rejected s
    option (some key) (some value) s =
        let (r, code) = set_option key value s.runtime in
        record { state = record s { runtime = r }; code = code; out = [] }

    unfoldable pub resize : ℕ → ℕ → State E → Answer E
    resize width height s = record {
      state = s;
      code = if not (width == 0) && not (height == 0) then ok else invalid_argument;
      out = [];
    }

    -- The reply is width, height, stride_bytes (a `uint32_t`), pixel_format and frame_serial.
    abbrev pub frame_out : FrameReply → Code → List ℕ
    frame_out (FrameReply.frame width height serial) code =
        if is_ok code then width ∷ height ∷ (width * 4 % 2 ^ 32) ∷ 1 ∷ serial ∷ [] else []
    frame_out (FrameReply.failed c) code = []

    -- The adapter's frame, its code through Runtime::result, and what is written then.
    unfoldable pub ask_frame : (FrameReply → Code → State E → List ℕ) → State E → Answer E
    unfolding result
    ask_frame write s =
        let (env, reply) = a.frame_core s.runtime.core s.env in
        let (s', code) = result a (frame_code reply) (record s { env = env }) in
        record { state = s'; code = code; out = write reply code s' }

    -- `struct_size` of the caller's structure.
    unfoldable pub get_frame_desc : Option ℕ → State E → Answer E
    unfolding ask_frame
    get_frame_desc none s = rejected s
    get_frame_desc (some struct_size) s =
        if ltb struct_size frame_desc_size
        then rejected s
        else ask_frame (λ reply code s'. frame_out reply code) s

    -- aether_rfvp_frame(r.core, &w, &h, &r.read_serial);
    abbrev pub remember : FrameReply → State E → State E
    remember (FrameReply.frame width height serial) s = record s {
      runtime = record s.runtime { read_serial = serial };
    }
    remember (FrameReply.failed c) s = s

    abbrev pub note_read : State E × Code → State E × Code
    note_read (s, code) =
        let (env, reply) = a.frame_core s.runtime.core s.env in
        (if is_ok code then remember reply (record s { env = env }) else s, code)

    unfoldable pub read_frame_rgba : Bool → ℕ → State E → Answer E
    unfolding call
    read_frame_rgba pixels_given size s =
        if not pixels_given
        then rejected s
        else plain (note_read (call a (λ core. a.read_core core size) s))

    -- A missing texture (-3) leaves the last error alone.
    abbrev pub native_reply : GpuReply → State E → Answer E
    native_reply (GpuReply.texture id width height serial) s =
        let (s', code) = result a ok s in
        record { state = s'; code = code; out = id ∷ width ∷ height ∷ serial ∷ [] }
    native_reply (GpuReply.failed (pos n)) s = plain (result a (pos n) s)
    native_reply (GpuReply.failed (negsuc n)) s =
        if n == 2
        then record { state = s; code = not_supported; out = [] }
        else plain (result a (negsuc n) s)

    unfoldable pub get_native_frame_texture : Bool → State E → Answer E
    unfolding result
    get_native_frame_texture outputs_given s =
        if not outputs_given
        then rejected s
        else let (env, reply) = a.gpu_frame_core s.runtime.core s.env in
          native_reply reply (record s { env = env })

    unfoldable pub send_input : Option InputEvent → State E → Answer E
    unfolding call
    send_input none s = rejected s
    send_input (some event) s =
        if ltb event.struct_size input_event_size
        then rejected s
        else plain (call a (λ core. a.input_core core event) s)

    abbrev pub rendered_flag : FrameReply → Code → ℕ → ℕ
    rendered_flag (FrameReply.frame width height serial) code read_serial =
        if is_ok code && not (serial == read_serial) then 1 else 0
    rendered_flag (FrameReply.failed c) code read_serial = 0

    unfoldable pub get_frame_rendered_flag : Bool → State E → Answer E
    unfolding ask_frame
    get_frame_rendered_flag flag_given s =
        if not flag_given
        then rejected s
        else ask_frame (λ reply code s'. rendered_flag reply code s'.runtime.read_serial ∷ []) s

    abbrev renderer_name : GpuReply → Text
    renderer_name (GpuReply.texture id width height serial) =
        if not (id == 0)
        then text "rfvp Godot GPU Bridge"
        else text "rfvp CPU RGBA8 (Godot presentation)"
    renderer_name (GpuReply.failed code) = text "rfvp CPU RGBA8 (Godot presentation)"

    -- The reply is the name with its terminator.
    unfoldable pub name_reply : Text → Bool → ℕ → State E → Answer E
    name_reply name buffer_given size s =
        if not buffer_given || ltb size (length name + 1)
        then rejected s
        else record { state = s; code = ok; out = name ++ 0 ∷ [] }

    unfoldable pub get_renderer_info : Bool → ℕ → State E → Answer E
    unfolding name_reply
    get_renderer_info buffer_given size s =
        let (env, reply) = a.gpu_frame_core s.runtime.core s.env in
        name_reply (renderer_name reply) buffer_given size (record s { env = env })

    unfoldable pub get_text_input_state : Bool → State E → Answer E
    get_text_input_state flags_given s =
        if not flags_given then rejected s else record { state = s; code = ok; out = 0 ∷ [] }

    -- Error
    unfoldable pub get_last_error : State E → Text
    get_last_error s = s.runtime.error
