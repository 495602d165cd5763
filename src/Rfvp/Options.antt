-- ===== src/Rfvp/Options.antt =====
-- What setting an option of an rfvp runtime means (bridge/rfvp_runtime/src/rfvp_runtime_provider.cpp,
-- Option).
use aether_kiri.Prelude.{
  ◌≡◌, refl, sym, Bool, true, false, some, Text, eq_text, eq_of_eq_text, if◌then◌else◌, arith,
}
use aether_kiri.Rfvp.State.{Code, ok, is_ok, invalid_argument, invalid_state, Runtime}
use aether_kiri.Rfvp.Calls.{
  OptionKey, current, known_key, is_encoding, is_renderer, assign, set_known, set_found, set_option,
}

-- The values that an option may take.
abbrev pub is_value : OptionKey → Text → Bool
is_value OptionKey.default_font value = true
is_value OptionKey.rfvp_encoding value = is_encoding value
is_value OptionKey.rfvp_renderer value = is_renderer value

-- What Option answers for one of its three keys.
abbrev pub answer : Bool → Bool → Bool → Code
answer same opened valid =
    if same then ok else if opened then invalid_state else if valid then ok else invalid_argument

abbrev pub is_key : OptionKey → OptionKey → Bool
is_key OptionKey.default_font OptionKey.default_font = true
is_key OptionKey.rfvp_encoding OptionKey.rfvp_encoding = true
is_key OptionKey.rfvp_renderer OptionKey.rfvp_renderer = true
is_key _ _ = false

module _ {E : Type 0} where
  -- The answer, the setting afterwards, the other settings and the flag.
  pub record Sets (k : OptionKey) (value : Text) (r : Runtime E) (x : Runtime E × Code)
      : Type 0 where
    pub code : x.1 ≡ answer (eq_text value (current k r)) r.opened (is_value k value)
    pub setting : current k x.0 ≡ (if is_ok x.1 then value else current k r)
    pub others : (j : OptionKey) → is_key j k ≡ false → current j x.0 ≡ current j r
    pub opened : x.0.opened ≡ r.opened

  assign-Sets :
      (k : OptionKey) (value : Text) (r : Runtime E)
      → eq_text value (current k r) ≡ false
      → r.opened ≡ false
      → Sets k value r (assign k value r)
  unfolding assign
  assign-Sets OptionKey.default_font value r e o = record {
    code = ground arith;
    setting = refl;
    others = λ j d. ground arith;
    opened = refl;
  }
  assign-Sets OptionKey.rfvp_encoding value r e o = record {
    code = ground arith;
    setting = ground arith;
    others = λ j d. ground arith;
    opened = ground arith;
  }
  assign-Sets OptionKey.rfvp_renderer value r e o = record {
    code = ground arith;
    setting = ground arith;
    others = λ j d. ground arith;
    opened = ground arith;
  }

  branch-Sets :
      (k : OptionKey) (value : Text) (r : Runtime E) (b : Bool) (x y : Runtime E × Code)
      → (b ≡ true → Sets k value r x)
      → (b ≡ false → Sets k value r y)
      → Sets k value r (if b then x else y)
  branch-Sets k value r true x y h g = h refl
  branch-Sets k value r false x y h g = g refl

  refused-Sets :
      (k : OptionKey) (value message : Text) (r : Runtime E)
      → eq_text value (current k r) ≡ false
      → r.opened ≡ true
      → Sets k value r (record r { error = message }, invalid_state)
  refused-Sets OptionKey.default_font value message r e o = record {
    code = ground arith;
    setting = refl;
    others = λ j d. ground arith;
    opened = refl;
  }
  refused-Sets OptionKey.rfvp_encoding value message r e o = record {
    code = ground arith;
    setting = refl;
    others = λ j d. ground arith;
    opened = refl;
  }
  refused-Sets OptionKey.rfvp_renderer value message r e o = record {
    code = ground arith;
    setting = refl;
    others = λ j d. ground arith;
    opened = refl;
  }

  set_known-Sets :
      (k : OptionKey) (value : Text) (r : Runtime E) → Sets k value r (set_known k value r)
  unfolding set_known
  set_known-Sets k value r =
      branch-Sets k value r (eq_text value (current k r)) _ _
        (λ e. record {
          code = ground arith;
          setting = sym (eq_of_eq_text value (current k r) e);
          others = λ j d. refl;
          opened = refl;
        })
        (λ e.
          branch-Sets k value r r.opened _ _ (λ o. refused-Sets k value _ r e o)
            (λ o. assign-Sets k value r e o))

  -- For each of the three keys: the current value is accepted at any time; any other is refused with
  -- INVALID_STATE once a game was opened, and with INVALID_ARGUMENT if it is not one of the option's
  -- values; the setting afterwards is the value given if it was accepted and the old one otherwise; the
  -- other settings and the opened flag stay.
  pub set_option-Sets :
      (k : OptionKey) (key value : Text) (r : Runtime E)
      → known_key key ≡ some k
      → Sets k value r (set_option key value r)
  unfolding set_option set_found
  set_option-Sets k key value r known = rw known (set_known-Sets k value r)
