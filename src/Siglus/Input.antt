-- ===== src/Siglus/Input.antt =====
-- SendInput of bridge/siglus_runtime/src/siglus_runtime_provider.cpp.
use aether_kiri.Prelude.{
  ℕ, ◌+◌, ◌-◌, ◌/◌, ◌%◌, ◌^◌, ℤ, pos, negsuc, pos_part, leb_ℤ, ltb_ℤ, Bool, true, false, not, ◌&&◌,
  ◌||◌, Option, none, some, [], ◌∷◌, Text, text, ltb, leb, ◌==◌, if◌then◌else◌,
}
use aether_kiri.Engine.Calls.{EventType, InputEvent, invalid_argument}
use aether_kiri.Siglus.State.{Shell, State, Answer, answer, call}

-- sizeof(engine_input_event_t)
abbrev pub input_event_size : ℕ
input_event_size = 104

-- `n & (1 << 30)`, of the two's complement.
abbrev pub is_cancel : ℤ → Bool
is_cancel (pos n) = n / 2 ^ 30 % 2 == 1
is_cancel (negsuc n) = n / 2 ^ 30 % 2 == 0

-- A code point that can be encoded.
unfoldable pub is_scalar : ℕ → Bool
is_scalar cp = not (ltb 0x10ffff cp || leb 0xd800 cp && leb cp 0xdfff)

-- The bytes of `utf8` in front of its terminator. `|` joins bits that do not overlap.
unfoldable pub encode_utf8 : ℕ → Text
encode_utf8 cp =
    if leb cp 0x7f
    then cp ∷ []
    else if leb cp 0x7ff
    then (0xc0 + cp / 2 ^ 6) ∷ (0x80 + cp % 64) ∷ []
    else if leb cp 0xffff
    then (0xe0 + cp / 2 ^ 12) ∷ (0x80 + cp / 2 ^ 6 % 64) ∷ (0x80 + cp % 64) ∷ []
    else (0xf0 + cp / 2 ^ 18)
      ∷ (0x80 + cp / 2 ^ 12 % 64)
      ∷ (0x80 + cp / 2 ^ 6 % 64)
      ∷ (0x80 + cp % 64)
      ∷ []

-- The characters in front of the first 0 byte, as a callee reads `utf8`.
unfoldable pub c_string : Text → Text
c_string [] = []
c_string (c ∷ bytes) = if c == 0 then [] else c ∷ c_string bytes

module _ {E : Type 0} (a : Shell E) where
  -- The second call is made if the first succeeded.
  abbrev pub and_then : (ℕ → E → E × ℤ) → (ℕ → E → E × ℤ) → ℕ → E → E × ℤ
  and_then f g ak env =
      let (env', code) = f ak env in if ltb_ℤ code (pos 0) then (env', code) else g ak env'

  abbrev dispatch : (ℕ → E → E × ℤ) → State E → Answer E
  dispatch f s = call a (text "siglus input dispatch") f s

  unfoldable pub press_key : ℤ → Bool → State E → Answer E
  unfolding call
  press_key code pressed s =
      if leb_ℤ (pos 0x200) code && ltb_ℤ code (pos 0x220)
      then dispatch (λ ak. a.joypad_button ak (pos_part code - 0x200) pressed) s
      else dispatch (λ ak. a.key ak code pressed) s

  unfoldable pub type_text : ℕ → State E → Answer E
  unfolding call is_scalar encode_utf8 c_string
  type_text cp s =
      if not (is_scalar cp)
      then answer invalid_argument s
      else dispatch (λ ak. a.text_input ak (c_string (encode_utf8 cp))) s

  unfoldable pub dispatch_event : InputEvent → EventType → State E → Answer E
  unfolding call press_key type_text
  dispatch_event event EventType.pointer_down s =
      dispatch
        (and_then (λ ak. a.mouse_move ak event.x event.y)
          (λ ak. a.mouse_button ak event.button true))
        s
  dispatch_event event EventType.pointer_up s =
      if is_cancel event.modifiers
      then call a (text "siglus pointer cancellation") a.pointer_cancel s
      else dispatch
          (and_then (λ ak. a.mouse_move ak event.x event.y)
            (λ ak. a.mouse_button ak event.button false))
          s
  dispatch_event event EventType.pointer_move s = dispatch (λ ak. a.mouse_move ak event.x event.y) s
  dispatch_event event EventType.pointer_scroll s =
      dispatch (λ ak. a.mouse_wheel ak (a.to_int32 event.delta_y)) s
  dispatch_event event EventType.key_down s = press_key event.key_code true s
  dispatch_event event EventType.key_up s = press_key event.key_code false s
  dispatch_event event EventType.text_input s = type_text event.unicode_codepoint s
  dispatch_event event EventType.back s =
      dispatch (and_then (λ ak. a.key ak (pos 0x1b) true) (λ ak. a.key ak (pos 0x1b) false)) s
  dispatch_event event (EventType.other n) s = answer invalid_argument s

  -- With a runtime.
  unfoldable pub send_input : Option InputEvent → State E → Answer E
  unfolding dispatch_event
  send_input none s = answer invalid_argument s
  send_input (some event) s =
      if ((s.runtime.ak == 0) || not s.runtime.opened) || ltb event.struct_size input_event_size
      then answer invalid_argument s
      else dispatch_event event event.type s
