-- ===== src/Siglus/Frames.antt =====
-- Running a game and its frames
-- (bridge/siglus_runtime/src/siglus_runtime_provider.cpp). The runtime pointer is not null.
use aether_kiri.Prelude.{
  ℕ, suc, zero, ◌+◌, ◌-◌, ◌*◌, ◌%◌, ◌^◌, ℤ, pos, negsuc, ltb_ℤ, Bool, true, false, not, ◌||◌,
  Option, none, some, List, [], ◌∷◌, ◌++◌, text, ltb, ◌==◌, if◌then◌else◌, is_empty, length, take,
}
use aether_kiri.Engine.Calls.{ok, invalid_argument, invalid_state, is_ok}
use aether_kiri.Siglus.State.{
  Shell, Geometry, State, Answer, answer, set_error, log_host, detail, fail, ok_or,
}

abbrev zeros : ℕ → List ℕ
zeros zero = []
zeros (suc n) = 0 ∷ zeros n

-- std::vector::resize
unfoldable pub resize_bytes : ℕ → List ℕ → List ℕ
resize_bytes n bytes = take n bytes ++ zeros (n - length bytes)

-- sizeof(engine_frame_desc_t)
abbrev pub frame_desc_size : ℕ
frame_desc_size = 96

module _ {E : Type 0} (a : Shell E) where
  -- The frame is read back into memory.
  unfoldable pub frame_read : ℤ → List ℕ → State E → Answer E
  unfolding fail
  frame_read (negsuc n) bytes s =
      fail a (text "siglus_ak_read_frame_rgba") (negsuc n)
        (record s { runtime = record s.runtime { frame_rgba = [] } })
  frame_read (pos n) bytes s =
      answer ok (record s { runtime = record s.runtime { frame_rgba = bytes; error = [] } })

  unfoldable pub copy_frame : State E → Answer E
  unfolding frame_read resize_bytes
  copy_frame s =
      let needed = s.runtime.frame_width * s.runtime.frame_height * 4 % 2 ^ 64 in
      let (env, (code, bytes)) =
        a.read_frame s.runtime.ak (resize_bytes needed s.runtime.frame_rgba) s.env in
      frame_read code bytes (record s { env = env })

  -- The frame is there: its number grows, and the host's texture or the memory receives it.
  unfoldable pub show_frame : Bool → Geometry → State E → Answer E
  unfolding copy_frame
  show_frame shared frame s =
      let serial = (s.runtime.frame_serial + 1) % 2 ^ 64 in
      let (env, published) = if shared then a.publish_shared serial s.env else (s.env, false) in
      let shown = record s {
        env = env;
        runtime = record s.runtime {
          frame_width = frame.width;
          frame_height = frame.height;
          frame_stride = frame.stride;
          frame_serial = serial;
          shared_current = published;
        };
      } in
      if published
      then answer ok
          (record shown { runtime = record shown.runtime { frame_rgba = []; error = [] } })
      else copy_frame shown

  unfoldable pub refresh : Bool → State E → Answer E
  unfolding fail show_frame
  refresh shared s =
      let (env, frame) = a.frame_desc s.runtime.ak s.env in
      if ltb_ℤ frame.code (pos 0)
      then fail a (text "siglus_ak_get_frame_desc") frame.code (record s { env = env })
      else show_frame shared frame (record s { env = env })

  unfoldable pub exit_requested : State E → Answer E
  unfolding log_host
  exit_requested s =
      let left = log_host 2 (text "engine requested exit") s in
      answer invalid_state (record left {
        env = a.stop_output left.env;
        runtime = record left.runtime {
          terminated = true;
          error = text "runtime requested termination";
        };
      })

  unfoldable pub after_step : Bool → ℤ → State E → Answer E
  unfolding fail log_host exit_requested refresh
  after_step shared (negsuc n) s =
      fail a (text "siglus_ak_step") (negsuc n)
        (log_host 4 (text "siglus_ak_step failed: " ++ detail a s) s)
  after_step shared (pos n) s = if n == 1 then exit_requested s else refresh shared s

  unfoldable pub run_step : ℕ → State E → Answer E
  unfolding after_step
  run_step delta s =
      let (env, target) = a.frame_desc s.runtime.ak s.env in
      let (env', shared) =
        if ltb_ℤ target.code (pos 0)
        then (env, false)
        else a.begin_shared s.runtime.ak target.width target.height env in
      let (env'', code) = a.step s.runtime.ak delta env' in
      after_step shared code (record s { env = env'' })

  unfoldable pub tick : ℕ → State E → Answer E
  unfolding run_step
  tick delta s =
      if (s.runtime.ak == 0) || not s.runtime.opened
      then answer invalid_state s
      else if s.runtime.terminated
      then answer invalid_state (set_error (text "runtime has been terminated") s)
      else if s.runtime.paused
      then answer ok s
      else run_step delta s

  -- `struct_size` of the caller's structure. The reply is width, height, stride_bytes, pixel_format
  -- and frame_serial.
  unfoldable pub get_frame_desc : Option ℕ → State E → Answer E
  get_frame_desc none s = answer invalid_argument s
  get_frame_desc (some struct_size) s =
      if ltb struct_size frame_desc_size then answer invalid_argument s else record {
        state = s;
        result = ok;
        out =
            s.runtime.frame_width ∷ s.runtime.frame_height ∷ s.runtime.frame_stride ∷ 1
            ∷ s.runtime.frame_serial ∷ [];
      }

  abbrev pub delivered : State E → State E
  delivered s = record s {
    runtime = record s.runtime { delivered_frame_serial = s.runtime.frame_serial };
  }

  -- The shared frame is read back into the caller's buffer.
  unfoldable pub capture : List ℕ → State E → Answer E
  unfolding ok_or
  capture pixels s =
      let (env, (code, bytes)) = a.read_frame s.runtime.ak pixels s.env in
      let read = ok_or a (text "siglus capture shared frame") code (record s { env = env }) in
      record read {
        state = if is_ok read.result then delivered read.state else read.state;
        out = bytes;
      }

  -- The caller's buffer, with `out_pixels_size` bytes; the reply is the buffer's bytes that are written.
  unfoldable pub read_frame : Option (List ℕ) → State E → Answer E
  unfolding capture
  read_frame none s = answer invalid_argument s
  read_frame (some pixels) s =
      if s.runtime.shared_current
      then capture pixels s
      else if is_empty s.runtime.frame_rgba
      then answer invalid_state (set_error (text "no frame rendered yet") s)
      else if ltb (length pixels) (length s.runtime.frame_rgba)
      then answer invalid_argument (set_error (text "RGBA frame output buffer is too small") s)
      else record { state = set_error [] (delivered s); result = ok; out = s.runtime.frame_rgba }
