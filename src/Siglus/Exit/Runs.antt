-- ===== src/Siglus/Exit/Runs.antt =====
-- A game that asked to be left (bridge/siglus_runtime/src/siglus_runtime_provider.cpp): ticks, frames
-- and controls.
use aether_kiri.Prelude.{
  ℕ, ℤ, pos, negsuc, ltb_ℤ, Bool, not, ◌||◌, Option, none, some, List, [], Text, text, eq_text, ltb,
  ◌==◌, if◌then◌else◌, is_empty, length,
}
use aether_kiri.Engine.Calls.{ok, invalid_argument, invalid_state, not_supported, is_ok}
use aether_kiri.Siglus.State.{Shell, State, Answer, set_error, ok_or}
use aether_kiri.Siglus.Controls.{set_paused, paused_shell, set_option, set_surface_size, set_cursor}
use aether_kiri.Siglus.Frames.{tick, get_frame_desc, read_frame, capture, delivered}
use aether_kiri.Siglus.Exit.Rules.{
  HasLeft, Leaves, answer-Leaves, branch-Leaves, true_branch-Leaves, branch-HasLeft, outside,
  ok_or-Leaves, call-Leaves,
}

module _ {E : Type 0} (a : Shell E) where
  pub tick-Leaves : (delta : ℕ) (s : State E) → HasLeft s → Leaves (tick a delta s)
  unfolding tick
  tick-Leaves delta s h = branch-Leaves a _ _ _ (answer-Leaves a invalid_state s h) (
      true_branch-Leaves a s.runtime.terminated _ _ h.terminated
        (record { state = record { opened = h.opened; terminated = h.terminated } }))

  pub paused_shell-Leaves :
      (context : Text) (paused : Bool) (code : ℤ) (s : State E)
      → HasLeft s
      → Leaves (paused_shell a context paused code s)
  unfolding paused_shell
  paused_shell-Leaves context paused code s h =
      let moved : State E = record s {
        env = a.pause_output paused s.env;
        runtime = record s.runtime { paused = paused };
      } in
      ok_or-Leaves a context code (if ltb_ℤ code (pos 0) then s else moved) (
        branch-HasLeft a (ltb_ℤ code (pos 0)) s moved h
          (record { opened = h.opened; terminated = h.terminated }))

  pub set_paused-Leaves :
      (context : Text) (paused : Bool) (s : State E)
      → HasLeft s
      → Leaves (set_paused a context paused s)
  unfolding set_paused
  set_paused-Leaves context paused s h = branch-Leaves a _ _ _ (answer-Leaves a _ s h) (
      paused_shell-Leaves context paused (a.set_paused s.runtime.ak paused s.env).1
        (record s { env = (a.set_paused s.runtime.ak paused s.env).0 }) (outside a _ s h))

  pub set_cursor-Leaves : (o : Option (ℤ × ℤ)) (s : State E) → HasLeft s → Leaves (set_cursor a o s)
  set_cursor-Leaves none s h = answer-Leaves a _ s h
  set_cursor-Leaves (some (start, count)) s h = record {
    state = record { opened = h.opened; terminated = h.terminated };
  }

  pub set_option-Leaves :
      (key value : Option Text) (s : State E) → HasLeft s → Leaves (set_option a key value s)
  unfolding set_option
  set_option-Leaves none value s h = answer-Leaves a _ s h
  set_option-Leaves (some key) none s h = answer-Leaves a _ s h
  set_option-Leaves (some key) (some value) s h =
      branch-Leaves a (eq_text key (text "ime_preedit")) _ _
        (call-Leaves a (text "siglus IME preedit")
          (λ ak. a.ime_preedit ak (some value) s.runtime.ime_start s.runtime.ime_length) s h)
        (branch-Leaves a (eq_text key (text "ime_preedit_cursor")) _ _
          (set_cursor-Leaves (a.scan_pair value) s h)
          (branch-Leaves a (eq_text key (text "ime_disabled")) _ _
            (call-Leaves a (text "siglus IME disabled")
              (λ ak. a.ime_preedit ak none (negsuc 0) (pos 0)) s h)
            (answer-Leaves a not_supported s h)))

  pub set_surface_size-Leaves :
      (width height : ℕ) (s : State E) → HasLeft s → Leaves (set_surface_size a width height s)
  unfolding set_surface_size
  set_surface_size-Leaves width height s h =
      let asked : State E = record s {
        runtime = record s.runtime { pending_width = width; pending_height = height };
      } in
      let left : HasLeft asked = record { opened = h.opened; terminated = h.terminated } in
      branch-Leaves a ((s.runtime.ak == 0) || ((width == 0) || (height == 0))) _ _
        (answer-Leaves a invalid_argument s h)
        (branch-Leaves a (not s.runtime.opened) _ _ (answer-Leaves a ok asked left) (
          call-Leaves a (text "siglus_ak_resize")
            (λ ak.
              a.resize_shell ak
                (if ltb 0 s.runtime.native_width then s.runtime.native_width else width)
                (if ltb 0 s.runtime.native_height then s.runtime.native_height else height))
            asked left))

  pub get_frame_desc-Leaves :
      (size : Option ℕ) (s : State E) → HasLeft s → Leaves (get_frame_desc a size s)
  unfolding get_frame_desc
  get_frame_desc-Leaves none s h = answer-Leaves a _ s h
  get_frame_desc-Leaves (some size) s h =
      branch-Leaves a _ _ _ (answer-Leaves a _ s h) (record { state = h })

  pub delivered-HasLeft : (s : State E) → HasLeft s → HasLeft (delivered a s)
  delivered-HasLeft s h = record { opened = h.opened; terminated = h.terminated }

  pub capture-Leaves : (pixels : List ℕ) (s : State E) → HasLeft s → Leaves (capture a pixels s)
  unfolding capture
  capture-Leaves pixels s h =
      let r = a.read_frame s.runtime.ak pixels s.env in
      let read = ok_or a (text "siglus capture shared frame") r.1.0 (record s { env = r.0 }) in
      let left : HasLeft read.state = (ok_or-Leaves a _ r.1.0 _ (outside a r.0 s h)).state in
      record {
        state =
            branch-HasLeft a (is_ok read.result) (delivered a read.state) read.state
              (delivered-HasLeft read.state left) left;
      }

  pub read_frame-Leaves :
      (pixels : Option (List ℕ)) (s : State E) → HasLeft s → Leaves (read_frame a pixels s)
  unfolding read_frame
  read_frame-Leaves none s h = answer-Leaves a _ s h
  read_frame-Leaves (some pixels) s h =
      let noted : (message : Text) → HasLeft (set_error message s) =
        λ message. record { opened = h.opened; terminated = h.terminated } in
      let copied : Answer E = record {
        state = set_error [] (delivered a s);
        result = ok;
        out = s.runtime.frame_rgba;
      } in
      branch-Leaves a s.runtime.shared_current _ _ (capture-Leaves pixels s h) (
        branch-Leaves a (is_empty s.runtime.frame_rgba) _ _
          (answer-Leaves a invalid_state (set_error (text "no frame rendered yet") s) (noted _))
          (branch-Leaves a (ltb (length pixels) (length s.runtime.frame_rgba)) _ copied
            (answer-Leaves a invalid_argument
              (set_error (text "RGBA frame output buffer is too small") s) (noted _))
            (record { state = record { opened = h.opened; terminated = h.terminated } })))
