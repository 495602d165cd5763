-- ===== src/Onscripter/SaveNames.antt =====
-- The file names that IsOnsSaveFileName accepts
-- (bridge/onscripter_runtime/src/onscripter_save_storage.cpp).
use aether_kiri.Prelude.{
  ℕ, zero, suc, ◌+◌, ◌-◌, ◌≤◌, ◌<◌, ◌≡◌, ◌↔◌, ◌⊎◌, inl, inr, refl, sym, ◌∙◌, ap, Bool, true, false,
  not, ◌||◌, [], ◌∷◌, ◌++◌, Text, text, eq_text, eq_text_iff, eq_of_eq_text, leb, if◌then◌else◌,
  length, take, drop, arith, Bool-cases, length-append, All,
}
use aether_kiri.Onscripter.SaveFiles.{is_fixed_name, is_digit, all_digits, is_ons_save_file_name}

take-append-drop : (n : ℕ) (xs : Text) → take n xs ++ drop n xs ≡ xs
take-append-drop zero xs = refl
take-append-drop (suc n) [] = refl
take-append-drop (suc n) (x ∷ xs) = ap (λ t. x ∷ t) (take-append-drop n xs)

drop-nil : (n : ℕ) → drop {A = ℕ} n [] ≡ []
drop-nil zero = refl
drop-nil (suc n) = refl

drop-drop : (n m : ℕ) (xs : Text) → drop m (drop n xs) ≡ drop (n + m) xs
drop-drop zero m xs = ap (λ k. drop k xs) (omega arith)
drop-drop (suc n) m [] = drop-nil m ∙ sym (drop-nil (suc n + m))
drop-drop (suc n) m (x ∷ xs) =
    drop-drop n m xs
    ∙ ap (λ k. drop k (x ∷ xs)) (let e : suc (n + m) ≡ suc n + m = omega arith in e)

length-drop : (n : ℕ) (xs : Text) → length (drop n xs) ≡ length xs - n
length-drop zero xs = omega arith
length-drop (suc n) [] = omega arith
length-drop (suc n) (x ∷ xs) = omega (arith, length-drop n xs)

length-take : (n : ℕ) (xs : Text) → n ≤ length xs → length (take n xs) ≡ n
length-take zero xs h = refl
length-take (suc n) [] h = absurd (omega arith)
length-take (suc n) (x ∷ xs) h = omega (arith, length-take n xs)

take-append : (xs ys : Text) → take (length xs) (xs ++ ys) ≡ xs
take-append [] ys = refl
take-append (x ∷ xs) ys = ap (λ t. x ∷ t) (take-append xs ys)

drop-append : (xs ys : Text) → drop (length xs) (xs ++ ys) ≡ ys
drop-append [] ys = refl
drop-append (x ∷ xs) ys = drop-append xs ys

all_digits-All : (s : Text) → all_digits s ≡ true → All (λ c. is_digit c ≡ true) s
unfolding all_digits
all_digits-All [] h = tt
all_digits-All (c ∷ s) h = (ground arith, all_digits-All s (ground arith))

All-all_digits : (s : Text) → All (λ c. is_digit c ≡ true) s → all_digits s ≡ true
unfolding all_digits
All-all_digits [] h = refl
All-all_digits (c ∷ s) h = ground (arith, All-all_digits s h.1)

-- "save", digits and ".dat".
abbrev pub IsNumbered : Text → Type 0
IsNumbered name =
    (digits : Text) × (0 < length digits)
    × All (λ c. is_digit c ≡ true) digits
    × (name ≡ text "save" ++ (digits ++ text ".dat"))

-- What is left of the tests for a name that is none of the fixed ones.
abbrev has_pattern : Text → Bool
has_pattern name =
    if (leb (length name) (4 + 4) || not (eq_text (take 4 name) (text "save")))
      || not (eq_text (drop (length name - 4) name) (text ".dat"))
    then false
    else all_digits (take (length name - 4 - 4) (drop 4 name))

IsNumbered-of_pattern : (name : Text) → has_pattern name ≡ true → IsNumbered name
IsNumbered-of_pattern name h =
    let digits : Text = take (length name - 4 - 4) (drop 4 name) in
    let long : 8 < length name = ground arith in
    let head : take 4 name ≡ text "save" = eq_of_eq_text _ _ (ground arith) in
    let tail : drop (length name - 4) name ≡ text ".dat" = eq_of_eq_text _ _ (ground arith) in
    let index : 4 + (length name - 4 - 4) ≡ length name - 4 = omega arith in
    let rest : drop (length name - 4 - 4) (drop 4 name) ≡ text ".dat" =
      drop-drop 4 (length name - 4 - 4) name ∙ ap (λ k. drop k name) index ∙ tail in
    (
      digits,
      omega (arith, length-take (length name - 4 - 4) (drop 4 name), length-drop 4 name),
      all_digits-All digits (ground arith),
      sym (take-append-drop 4 name)
          ∙ ap (λ t. t ++ drop 4 name) head
          ∙ ap (λ t. text "save" ++ t)
              (sym (take-append-drop (length name - 4 - 4) (drop 4 name))
                ∙ ap (λ t. digits ++ t) rest),
    )

has_pattern_of :
    (n : ℕ) (head tail inner : Text)
    → 8 < n
    → eq_text head (text "save") ≡ true
    → eq_text tail (text ".dat") ≡ true
    → all_digits inner ≡ true
    → (if (leb n (4 + 4) || not (eq_text head (text "save"))) || not (eq_text tail (text ".dat"))
        then false
        else all_digits inner)
      ≡ true
has_pattern_of n head tail inner long h t d = rw (h, t) (ground arith)

length-numbered :
    (digits : Text) → length (text "save" ++ (digits ++ text ".dat")) ≡ 4 + (length digits + 4)
unfolding text
length-numbered digits = omega (arith, length-append digits (text ".dat"))

pattern_of_IsNumbered : (name : Text) → IsNumbered name → has_pattern name ≡ true
unfolding text
pattern_of_IsNumbered name (digits, some_digits, all, e) =
    let len : length name ≡ 4 + (length digits + 4) = ap length e ∙ length-numbered digits in
    let head : take 4 name ≡ text "save" = ap (take 4) e in
    let rest : drop 4 name ≡ digits ++ text ".dat" = ap (drop 4) e in
    let before : length name - 4 ≡ 4 + length digits = omega arith in
    let middle : length name - 4 - 4 ≡ length digits = omega arith in
    let tail : drop (length name - 4) name ≡ text ".dat" =
      ap (λ k. drop k name) before
      ∙ sym (drop-drop 4 (length digits) name)
      ∙ ap (drop (length digits)) rest
      ∙ drop-append digits (text ".dat") in
    let inner : take (length name - 4 - 4) (drop 4 name) ≡ digits =
      ap (λ k. take k (drop 4 name)) middle
      ∙ ap (take (length digits)) rest
      ∙ take-append digits (text ".dat") in
    has_pattern_of (length name) (take 4 name) (drop (length name - 4) name)
      (take (length name - 4 - 4) (drop 4 name)) (omega arith) ((eq_text_iff _ _).1 head)
      ((eq_text_iff _ _).1 tail) (ap all_digits inner ∙ All-all_digits digits all)

not_fixed :
    (name : Text)
    → is_fixed_name name ≡ false
    → (is_fixed_name name ≡ true) ⊎ IsNumbered name
    → has_pattern name ≡ true
not_fixed name other (inl fixed) = absurd (clash (sym fixed ∙ other))
  where
    clash : true ≡ false → ⊥
    clash p = cc
not_fixed name other (inr numbered) = pattern_of_IsNumbered name numbered

-- IsOnsSaveFileName accepts exactly the seven fixed names and the names of "save", one digit at least
-- and ".dat".
pub is_ons_save_file_name_lem :
    (name : Text)
    → (is_ons_save_file_name name ≡ true) ↔ ((is_fixed_name name ≡ true) ⊎ IsNumbered name)
unfolding is_ons_save_file_name
is_ons_save_file_name_lem name = elim (Bool-cases (is_fixed_name name)) [
  | inl fixed ↦ (λ h. inl fixed, λ h. rw fixed refl)
  | inr other ↦ (
    λ h. inr (
        IsNumbered-of_pattern name
          (sym (ap (λ b. if b then true else has_pattern name) other) ∙ h)),
    λ h. ap (λ b. if b then true else has_pattern name) other ∙ not_fixed name other h,
  )
]
