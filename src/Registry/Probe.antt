-- ===== src/Registry/Probe.antt =====
-- The directory probe of the built-in KiriKiri entry (abi/src/engine_runtime_provider.cpp).
use aether_kiri.Prelude.{
  ℕ, ◌-◌, ◌≤◌, ◌≡◌, refl, Bool, false, ◌&&◌, ◌||◌, List, [], ◌∷◌, text, arith, eq_text, lower, ltb,
  length, drop, if◌then◌else◌,
}
use aether_kiri.Engine.Services.{DirEntry}
use aether_kiri.Registry.{probe_entry, probe_entries}

-- A regular file named data.xp3, in any case.
abbrev pub is_main_archive : DirEntry → Bool
is_main_archive entry = entry.is_regular_file && eq_text (lower entry.file_name) (text "data.xp3")

-- A regular file whose name ends in .xp3 after one character at least.
abbrev pub is_archive : DirEntry → Bool
is_archive entry =
    entry.is_regular_file
    && ltb 4 (length (lower entry.file_name))
    && eq_text (drop (length (lower entry.file_name) - 4) (lower entry.file_name)) (text ".xp3")

unfoldable pub some_entry : (DirEntry → Bool) → List DirEntry → Bool
some_entry test [] = false
some_entry test (entry ∷ rest) = test entry || some_entry test rest

-- 100 with a data.xp3, else 80 with another archive, else 0.
abbrev pub expected : Bool → Bool → ℕ → ℕ
expected main other score = if main then 100 else if other && ltb score 80 then 80 else score

-- The loop, which stops at the first data.xp3, finds what two searches of the whole directory find:
-- the order of the entries does not matter.
pub probe_entries_lem :
    (entries : List DirEntry) (score : ℕ)
    → score ≤ 80
    → probe_entries entries score
      ≡ expected (some_entry is_main_archive entries) (some_entry is_archive entries) score
unfolding probe_entries probe_entry some_entry
probe_entries_lem [] score h = refl
probe_entries_lem (entry ∷ rest) score h =
    let same = probe_entries_lem rest score h in
    let eighty = probe_entries_lem rest 80 (omega arith) in ground (arith, same, eighty)
