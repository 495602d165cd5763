-- ===== src/Siglus/Controls.antt =====
-- Pausing, options and the size of the surface
-- (bridge/siglus_runtime/src/siglus_runtime_provider.cpp). The runtime pointer is not null.
use aether_kiri.Prelude.{
  ℕ, ℤ, pos, negsuc, ltb_ℤ, Bool, true, false, not, ◌||◌, Option, none, some, Text, text, eq_text,
  ltb, ◌==◌, if◌then◌else◌,
}
use aether_kiri.Engine.Calls.{ok, invalid_argument, invalid_state, not_supported}
use aether_kiri.Siglus.State.{Shell, State, Answer, answer, ok_or, call}

module _ {E : Type 0} (a : Shell E) where
  -- Pause and Resume after siglus_ak_set_paused.
  unfoldable pub paused_shell : Text → Bool → ℤ → State E → Answer E
  unfolding ok_or
  paused_shell context paused code s = ok_or a context code (
      if ltb_ℤ code (pos 0) then s else record s {
        env = a.pause_output paused s.env;
        runtime = record s.runtime { paused = paused };
      })

  unfoldable pub set_paused : Text → Bool → State E → Answer E
  unfolding paused_shell
  set_paused context paused s =
      if not s.runtime.opened
      then answer invalid_state s
      else let (env, code) = a.set_paused s.runtime.ak paused s.env in
        paused_shell context paused code (record s { env = env })

  unfoldable pub pause : State E → Answer E
  unfolding set_paused
  pause s = set_paused (text "siglus pause") true s

  unfoldable pub resume : State E → Answer E
  unfolding set_paused
  resume s = set_paused (text "siglus resume") false s

  abbrev pub set_cursor : Option (ℤ × ℤ) → State E → Answer E
  set_cursor none s = answer invalid_argument s
  set_cursor (some (start, count)) s =
      answer ok (record s { runtime = record s.runtime { ime_start = start; ime_length = count } })

  -- The key and the value; a null option is one with null pointers.
  unfoldable pub set_option : Option Text → Option Text → State E → Answer E
  unfolding call
  set_option none value s = answer invalid_argument s
  set_option (some key) none s = answer invalid_argument s
  set_option (some key) (some value) s =
      if eq_text key (text "ime_preedit")
      then call a (text "siglus IME preedit")
          (λ ak. a.ime_preedit ak (some value) s.runtime.ime_start s.runtime.ime_length) s
      else if eq_text key (text "ime_preedit_cursor")
      then set_cursor (a.scan_pair value) s
      else if eq_text key (text "ime_disabled")
      then call a (text "siglus IME disabled") (λ ak. a.ime_preedit ak none (negsuc 0) (pos 0)) s
      else answer not_supported s

  unfoldable pub set_surface_size : ℕ → ℕ → State E → Answer E
  unfolding call
  set_surface_size width height s =
      if (s.runtime.ak == 0) || ((width == 0) || (height == 0))
      then answer invalid_argument s
      else let asked = record s {
        runtime = record s.runtime { pending_width = width; pending_height = height };
      } in
        if not s.runtime.opened
        then answer ok asked
        else call a (text "siglus_ak_resize")
            (λ ak.
              a.resize_shell ak
                (if ltb 0 s.runtime.native_width then s.runtime.native_width else width)
                (if ltb 0 s.runtime.native_height then s.runtime.native_height else height))
            asked
