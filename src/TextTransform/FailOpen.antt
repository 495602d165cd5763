-- ===== src/TextTransform/FailOpen.antt =====
-- Text is never lost in the text hook (abi/src/TextTransform.cpp), and its two-step copy protocol
-- (abi/src/engine_api_dispatch.cpp, engine_transform_text_utf8).
use aether_kiri.Prelude.{
  ◌≡◌, ◌≢◌, ◌⊎◌, inl, inr, refl, sym, ◌∙◌, ap, true, false, not, Option, none, some, [], ◌∷◌, Text,
  if◌then◌else◌, is_empty, Bool-cases, option_or,
}
use aether_kiri.TextTransform.{
  Outcome, thrown, returned, Hooks, accepted, transform_with, transform_text,
}

-- The text that comes back is the input, or what the registered callback gave for it, which then
-- returned true and is not empty.
abbrev pub IsKept : {E : Type 0} → Hooks E → Option Text → Text → E → Text → Type 0
IsKept {E} h runtime_id input env t =
    (t ≡ input)
    ⊎ ((callback : Text → Text → E → E × Outcome) × (h.transform ≡ some callback)
        × ((callback (option_or runtime_id []) input env).1 ≡ returned true t)
        × (t ≢ []))

not_empty : (t : Text) → is_empty t ≡ false → t ≢ []
not_empty [] h p = clash h
  where
    clash : true ≡ false → ⊥
    clash q = cc
not_empty (c ∷ t) h p = clash p
  where
    clash : c ∷ t ≡ [] → ⊥
    clash q = cc

module _ {E : Type 0} where
  outcome-IsKept :
      (h : Hooks E) (callback : Text → Text → E → E × Outcome) (runtime_id : Option Text)
      (input : Text) (env : E) (o : Outcome)
      → h.transform ≡ some callback
      → (callback (option_or runtime_id []) input env).1 ≡ o
      → IsKept h runtime_id input env (accepted input o)
  unfolding accepted
  outcome-IsKept h callback runtime_id input env thrown set e = inl refl
  outcome-IsKept h callback runtime_id input env (returned false output) set e = inl refl
  outcome-IsKept h callback runtime_id input env (returned true output) set e =
      elim (Bool-cases (is_empty output)) [
        | inl nothing ↦ inl (ap (λ b. if not b then output else input) nothing)
        | inr something ↦
            let same : (if not (is_empty output) then output else input) ≡ output =
              ap (λ b. if not b then output else input) something in
            inr (
              callback,
              set,
              e ∙ ap (returned true) (sym same),
              λ p. not_empty output something (sym same ∙ p),
            )
      ]

  with-IsKept :
      (h : Hooks E) (o : Option (Text → Text → E → E × Outcome)) (runtime_id : Option Text)
      (input : Text) (env : E)
      → h.transform ≡ o
      → IsKept h runtime_id input env (transform_with o runtime_id input env).1
  unfolding transform_with
  with-IsKept h none runtime_id input env set = inl refl
  with-IsKept h (some callback) runtime_id input env set = elim (Bool-cases (is_empty input)) [
    | inl e ↦ rw e (inl refl)
    | inr e ↦ rw e (
        outcome-IsKept h callback runtime_id input env
          (callback (option_or runtime_id []) input env).1 set refl)
  ]

  -- Whatever the registered callback does, throwing included, the text that comes back is the input, or
  -- a text that is not empty and with which the callback returned true.
  pub transform_text-IsKept :
      (h : Hooks E) (runtime_id : Option Text) (input : Text) (env : E)
      → IsKept h runtime_id input env (transform_text h runtime_id input env).1
  unfolding transform_text
  transform_text-IsKept h runtime_id input env = with-IsKept h h.transform runtime_id input env refl
