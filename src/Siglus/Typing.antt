-- ===== src/Siglus/Typing.antt =====
-- What the shell receives for a typed character: UTF-8 as RFC 3629 defines it
-- (SendInput of bridge/siglus_runtime/src/siglus_runtime_provider.cpp).
use aether_kiri.Prelude.{
  ℕ, ◌+◌, ◌-◌, ◌*◌, ◌/◌, ◌%◌, ◌^◌, ◌≤◌, ◌<◌, ◌≡◌, ◌≢◌, refl, text, Bool, true, false, not, ◌&&◌,
  Option, none, some, [], ◌∷◌, Text, arith, ltb, leb, ◌==◌, if◌then◌else◌, Bool-cases, inl, inr,
}
use aether_kiri.Engine.Calls.{EventType, InputEvent}
use aether_kiri.Siglus.State.{Shell, State, call}
use aether_kiri.Siglus.Input.{
  is_scalar, encode_utf8, c_string, type_text, dispatch_event, send_input, input_event_size,
}

-- A continuation byte.
abbrev pub is_tail : ℕ → Bool
is_tail b = leb 0x80 b && leb b 0xbf

-- The code point that a text of one character stands for; overlong forms, surrogates and numbers above
-- 0x10ffff are not UTF-8.
unfoldable pub decode_utf8 : Text → Option ℕ
decode_utf8 (b ∷ []) = if leb b 0x7f then some b else none
decode_utf8 (b ∷ c ∷ []) =
    if (leb 0xc2 b && leb b 0xdf) && is_tail c then some ((b - 0xc0) * 64 + (c - 0x80)) else none
decode_utf8 (b ∷ c ∷ d ∷ []) =
    let cp = (b - 0xe0) * 4096 + (c - 0x80) * 64 + (d - 0x80) in
    if (leb 0xe0 b && leb b 0xef)
      && (is_tail c && (is_tail d && (leb 0x800 cp && not (leb 0xd800 cp && leb cp 0xdfff))))
    then some cp
    else none
decode_utf8 (b ∷ c ∷ d ∷ e ∷ []) =
    let cp = (b - 0xf0) * 262144 + (c - 0x80) * 4096 + (d - 0x80) * 64 + (e - 0x80) in
    if (leb 0xf0 b && leb b 0xf4)
      && (is_tail c && (is_tail d && (is_tail e && (leb 0x10000 cp && leb cp 0x10ffff))))
    then some cp
    else none
decode_utf8 _ = none

two :
    (cp : ℕ)
    → 0x7f < cp
    → cp ≤ 0x7ff
    → decode_utf8 ((0xc0 + cp / 2 ^ 6) ∷ (0x80 + cp % 64) ∷ []) ≡ some cp
unfolding decode_utf8
two cp h k = ground arith

three :
    (cp : ℕ)
    → is_scalar cp ≡ true
    → 0x7ff < cp
    → cp ≤ 0xffff
    → decode_utf8 ((0xe0 + cp / 2 ^ 12) ∷ (0x80 + cp / 2 ^ 6 % 64) ∷ (0x80 + cp % 64) ∷ [])
      ≡ some cp
unfolding decode_utf8 is_scalar
three cp s h k =
    let exact : (0xe0 + cp / 2 ^ 12 - 0xe0) * 4096
          + (0x80 + cp / 2 ^ 6 % 64 - 0x80) * 64
          + (0x80 + cp % 64 - 0x80)
        ≡ cp =
      omega arith in
    ground (arith, exact)

four :
    (cp : ℕ)
    → is_scalar cp ≡ true
    → 0xffff < cp
    → decode_utf8 (
        (0xf0 + cp / 2 ^ 18)
        ∷ (0x80 + cp / 2 ^ 12 % 64)
        ∷ (0x80 + cp / 2 ^ 6 % 64)
        ∷ (0x80 + cp % 64)
        ∷ [])
      ≡ some cp
unfolding decode_utf8 is_scalar
four cp s h =
    let exact : (0xf0 + cp / 2 ^ 18 - 0xf0) * 262144
          + (0x80 + cp / 2 ^ 12 % 64 - 0x80) * 4096
          + (0x80 + cp / 2 ^ 6 % 64 - 0x80) * 64
          + (0x80 + cp % 64 - 0x80)
        ≡ cp =
      omega arith in
    ground (arith, exact)

-- No byte of the encoding ends a C string.
c_string-encode_utf8 : (cp : ℕ) → cp ≢ 0 → c_string (encode_utf8 cp) ≡ encode_utf8 cp
unfolding c_string encode_utf8
c_string-encode_utf8 cp n = ground arith

decode_utf8-encode_utf8 : (cp : ℕ) → is_scalar cp ≡ true → decode_utf8 (encode_utf8 cp) ≡ some cp
unfolding encode_utf8
decode_utf8-encode_utf8 cp s = elim (Bool-cases (leb cp 0x7f)) [
  | inl a ↦ rw a (unfold decode_utf8 in rw a refl)
  | inr a ↦ rw a (elim (Bool-cases (leb cp 0x7ff)) [
    | inl b ↦ rw b (two cp (ground arith) (ground arith))
    | inr b ↦ rw b (elim (Bool-cases (leb cp 0xffff)) [
      | inl c ↦ rw c (three cp s (ground arith) (ground arith))
      | inr c ↦ rw c (four cp s (ground arith))
    ])
  ])
]

module _ {E : Type 0} (a : Shell E) where
  -- For an opened runtime with a shell, a text event of full structure size whose code point is not 0
  -- and can be encoded gives the shell a text that is the UTF-8 of this code point alone, and has the
  -- answer of that call.
  pub send_input-decode_utf8 :
      (event : InputEvent) (s : State E)
      → (s.runtime.ak == 0) ≡ false
      → s.runtime.opened ≡ true
      → ltb event.struct_size input_event_size ≡ false
      → event.type ≡ EventType.text_input
      → event.unicode_codepoint ≢ 0
      → is_scalar event.unicode_codepoint ≡ true
      → (typed : Text) × (decode_utf8 typed ≡ some event.unicode_codepoint)
        × (send_input a (some event) s
            ≡ call a (text "siglus input dispatch") (λ ak. a.text_input ak typed) s)
  unfolding send_input dispatch_event type_text
  send_input-decode_utf8 event s shell opened size typing nonzero scalar = (
    encode_utf8 event.unicode_codepoint,
    decode_utf8-encode_utf8 event.unicode_codepoint scalar,
    rw (shell, opened, size, typing, scalar, c_string-encode_utf8 event.unicode_codepoint nonzero)
        refl,
  )
