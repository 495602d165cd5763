-- ===== src/Onscripter/Viewport.antt =====
-- The shown part stays inside the picture
-- (bridge/onscripter_runtime/include/onscripter_presentation.h).
use aether_kiri.Prelude.{ℕ, ◌+◌, ◌-◌, ◌*◌, ◌/◌, ◌%◌, ◌^◌, ◌≤◌, ◌<◌, ◌≡◌, ℤ, arith}
use native.Mathlib.Nat.{mul-le-mul, div-lt_iff_lt-mul, lt-div-mul-add, div-mul-le_self}
use aether_kiri.Onscripter.Presentation.{resolve_presentation_viewport, resolve_presentation_scroll}

-- For a picture that is not empty: the viewport starts at its corner, has its width, and is at most as
-- high and not empty.
pub viewport_inside :
    (source_width source_height aspect_width aspect_height : ℕ)
    → 0 < source_height
    → let v = resolve_presentation_viewport source_width source_height aspect_width aspect_height in
      (v.x ≡ 0) × (v.y ≡ 0) × (v.width ≡ source_width) × (0 < v.height) × (v.height ≤ source_height)
unfolding resolve_presentation_viewport
viewport_inside source_width source_height aspect_width aspect_height h = ground arith

product-lt : (a b : ℕ) → a < 2 ^ 32 → b < 2 ^ 32 → a * b < 2 ^ 64
product-lt a b h k =
    let below : a ≤ 2 ^ 32 - 1 = omega arith in
    let below' : b ≤ 2 ^ 32 - 1 = omega arith in omega (arith, mul-le-mul below below')

quotient-lt : (p w h : ℕ) → 0 < w → p < h * w → p / w < h
quotient-lt p w h some_w less = (div-lt_iff_lt-mul some_w).1 less

-- The cropped height in exact numbers.
cropped_exact :
    (p w h : ℕ) → p < 2 ^ 64 → h < 2 ^ 32 → 0 < w → p < h * w → p % 2 ^ 64 / w % 2 ^ 32 ≡ p / w
cropped_exact p w h small low some_w less =
    let exact : p % 2 ^ 64 ≡ p = omega arith in
    rw exact (omega (arith, quotient-lt p w h some_w less))

-- The exact quotient is the largest height of this proportion.
quotient_largest : (p w : ℕ) → 0 < w → (p / w * w ≤ p) × (p < (p / w + 1) * w)
quotient_largest p w some_w =
    let above = lt-div-mul-add {a = p} {b = w} some_w in
    let spread : (p / w + 1) * w ≡ p / w * w + w = grind arith in
    (div-mul-le_self p w, omega (arith, spread, above))

-- For 32-bit sizes, where the viewport is lower than the picture, it is the highest one with the whole
-- width that is at least as wide, in proportion, as was asked for.
pub viewport_aspect :
    (source_width source_height aspect_width aspect_height : ℕ)
    → source_width < 2 ^ 32
    → source_height < 2 ^ 32
    → aspect_width < 2 ^ 32
    → aspect_height < 2 ^ 32
    → (resolve_presentation_viewport source_width source_height aspect_width aspect_height).height
      < source_height
    → let v = resolve_presentation_viewport source_width source_height aspect_width aspect_height in
      (v.height * aspect_width ≤ source_width * aspect_height)
      × (source_width * aspect_height < (v.height + 1) * aspect_width)
unfolding resolve_presentation_viewport
viewport_aspect source_width source_height aspect_width aspect_height w h a b cut = ground (
  arith,
  product-lt source_width aspect_height w b,
  product-lt source_height aspect_width h a,
  quotient_largest (source_width * aspect_height) aspect_width,
  cropped_exact (source_width * aspect_height) aspect_width source_height,
)

-- Wherever the viewport of a picture is scrolled to, it stays inside the picture.
pub scroll_inside :
    (source_height viewport_y viewport_height current_scroll : ℕ) (delta : ℤ)
    → viewport_y + viewport_height ≤ source_height
    → viewport_y
        + resolve_presentation_scroll source_height viewport_y viewport_height current_scroll delta
        + viewport_height
      ≤ source_height
unfolding resolve_presentation_scroll
scroll_inside source_height viewport_y viewport_height current_scroll delta h = ground arith
