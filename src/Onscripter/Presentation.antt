-- ===== src/Onscripter/Presentation.antt =====
-- bridge/onscripter_runtime/include/onscripter_presentation.h: the part of a game's picture that is
-- shown, and scrolling it. Arguments are `uint32_t`, below 2 ^ 32; products of two are `uint64_t`.
use aether_kiri.Prelude.{
  ℕ, ◌-◌, ◌*◌, ◌/◌, ◌%◌, ◌^◌, ℤ, pos, ◌+ℤ◌, leb_ℤ, pos_part, ◌&&◌, ◌||◌, ltb, leb, ◌==◌,
  if◌then◌else◌,
}

pub record Viewport : Type 0 where
  pub x : ℕ
  pub y : ℕ
  pub width : ℕ
  pub height : ℕ

abbrev whole : ℕ → ℕ → Viewport
whole width height = record { x = 0; y = 0; width = width; height = height }

-- static_cast<uint32_t>(static_cast<uint64_t>(source_width) * aspect_height / aspect_width)
abbrev pub cropped_height : ℕ → ℕ → ℕ → ℕ
cropped_height source_width aspect_width aspect_height =
    source_width * aspect_height % 2 ^ 64 / aspect_width % 2 ^ 32

unfoldable pub resolve_presentation_viewport : ℕ → ℕ → ℕ → ℕ → Viewport
resolve_presentation_viewport source_width source_height aspect_width aspect_height =
    if ((source_width == 0 || source_height == 0) || aspect_width == 0) || aspect_height == 0
    then whole source_width source_height
    else if leb (source_height * aspect_width % 2 ^ 64) (source_width * aspect_height % 2 ^ 64)
    then whole source_width source_height
    else let cropped = cropped_height source_width aspect_width aspect_height in
      if ltb 0 cropped && ltb cropped source_height
      then whole source_width cropped
      else whole source_width source_height

-- `delta` is an `int32_t`; the sum is an `int64_t` and cannot overflow.
unfoldable pub resolve_presentation_scroll : ℕ → ℕ → ℕ → ℕ → ℤ → ℕ
resolve_presentation_scroll source_height viewport_y viewport_height current_scroll delta =
    if ((source_height == 0 || viewport_height == 0) || leb source_height viewport_y)
      || ltb (source_height - viewport_y) viewport_height
    then 0
    else let max_scroll = source_height - viewport_y - viewport_height in
      let requested = pos current_scroll +ℤ delta in
      if leb_ℤ requested (pos 0)
      then 0
      else if leb_ℤ (pos max_scroll) requested
      then max_scroll
      else pos_part requested
