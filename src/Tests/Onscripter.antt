-- ===== src/Tests/Onscripter.antt =====
-- Runs of the ONScripter helpers and of the text hooks.
use aether_kiri.Prelude.{
  ℕ, ◌+◌, ◌*◌, ◌≤◌, ◌<◌, ◌≡◌, ◌↔◌, ◌⊎◌, refl, true, false, none, some, text, eq_text, arith,
}
use aether_kiri.Onscripter.Presentation.{resolve_presentation_viewport}
use aether_kiri.Onscripter.Viewport.{viewport_aspect}
use aether_kiri.Onscripter.SaveFiles.{is_fixed_name, is_ons_save_file_name}
use aether_kiri.Onscripter.SaveNames.{IsNumbered, is_ons_save_file_name_lem}
use aether_kiri.TextTransform.{Hooks, returned, transform_text}
use aether_kiri.TextTransform.FailOpen.{IsKept, transform_text-IsKept}

-- The upper 16:9 part of 640x480.
widescreen : (resolve_presentation_viewport 640 480 16 9).height ≡ 360
unfolding resolve_presentation_viewport
widescreen = refl

viewport_aspect_example :
    ((resolve_presentation_viewport 640 480 16 9).height * 16 ≤ 640 * 9)
    × (640 * 9 < ((resolve_presentation_viewport 640 480 16 9).height + 1) * 16)
viewport_aspect_example =
    viewport_aspect 640 480 16 9 (omega arith) (omega arith) (omega arith) (omega arith)
      (omega (arith, widescreen))

save_accepted : is_ons_save_file_name (text "save12.dat") ≡ true
unfolding is_ons_save_file_name text eq_text
save_accepted = refl

save_rejected : is_ons_save_file_name (text "save.dat") ≡ false
unfolding is_ons_save_file_name text eq_text
save_rejected = refl

is_ons_save_file_name_lem_example :
    (is_ons_save_file_name (text "save12.dat") ≡ true)
    ↔ ((is_fixed_name (text "save12.dat") ≡ true) ⊎ IsNumbered (text "save12.dat"))
is_ons_save_file_name_lem_example = is_ons_save_file_name_lem (text "save12.dat")

-- A callback that counts its calls and translates everything to one word.
abbrev hooks : Hooks ℕ
hooks = record {
  transform = some (λ runtime_id input env. (env + 1, returned true (text "hello")));
  prefetch = none;
}

transform_text-IsKept_example :
    IsKept hooks none (text "bonjour") 0 (transform_text hooks none (text "bonjour") 0).1
transform_text-IsKept_example = transform_text-IsKept hooks none (text "bonjour") 0
