-- ===== src/Tests/Providers.antt =====
-- Runs of the registration, of the automatic selection and of the directory probe.
use aether_kiri.Prelude.{
  ℕ, ◌≡◌, refl, true, false, pos, none, some, List, [], ◌∷◌, text, arith, All, lower, eq_text,
}
use aether_kiri.Engine.Services.{DirEntry}
use aether_kiri.Registry.{
  Registered, normalize_runtime_id, find_provider, probe_entries, is_valid_runtime_id, all_id_chars,
  is_id_char, has_required_members, engine_register_runtime_provider, register_locked,
  ensure_legacy_registered, push_provider,
}
use aether_kiri.Registry.Unique.{IsRegistry, register-IsRegistry, IsAt, register-IsAt}
use aether_kiri.Registry.Probe.{
  is_main_archive, is_archive, some_entry, expected, probe_entries_lem,
}
use aether_kiri.Dispatch.State.{Thread, run}
use aether_kiri.Dispatch.Select.{Scored, select_auto}
use aether_kiri.Dispatch.Ranking.{
  choose, IsCandidate, choose-IsCandidate, IsRanked, choose-IsRanked,
}
use aether_kiri.Dispatch.Probing.{choose_after, probe_all, select_auto_lem}
use aether_kiri.Tests.Sample.{
  system, plain_provider, better_provider, entry_of, empty_registry, inside,
}

empty-IsRegistry : IsRegistry empty_registry
empty-IsRegistry = record { ordered = tt; below = tt; builtin = λ e. refl }

register-IsRegistry_example :
    IsRegistry
      (engine_register_runtime_provider system false (some plain_provider) empty_registry).1
register-IsRegistry_example =
    register-IsRegistry system false (some plain_provider) empty_registry empty-IsRegistry

register-IsAt_example : IsAt 100 (
    find_provider
      (normalize_runtime_id plain_provider.runtime_id)
      (engine_register_runtime_provider system false
        (some plain_provider)
        empty_registry).1.providers)
unfolding engine_register_runtime_provider register_locked ensure_legacy_registered push_provider
    find_provider normalize_runtime_id is_valid_runtime_id all_id_chars is_id_char
    has_required_members lower text eq_text
register-IsAt_example = register-IsAt system false plain_provider empty_registry refl

abbrev two_scored : List (Scored ℕ)
two_scored =
    (entry_of plain_provider (text "plain") 1, pos 50)
    ∷ (entry_of better_provider (text "better") 2, pos 50)
    ∷ []

choose-IsRanked_example : All (IsRanked (choose two_scored none)) two_scored
choose-IsRanked_example = choose-IsRanked two_scored none

abbrev two_entries : List (Registered ℕ)
two_entries =
    entry_of plain_provider (text "plain") 1 ∷ entry_of better_provider (text "better") 2 ∷ []

select_auto_lem_example :
    run (select_auto (text "/game") two_entries none) (inside Thread.absent [])
    ≡ choose_after none (run (probe_all (text "/game") two_entries) (inside Thread.absent []))
select_auto_lem_example = select_auto_lem (text "/game") two_entries none (inside Thread.absent [])

abbrev directory : List DirEntry
directory =
    record { file_name = text "Voice.XP3"; is_regular_file = true }
    ∷ record { file_name = text "DATA.XP3"; is_regular_file = true }
    ∷ []

probe_entries_lem_example :
    probe_entries directory 0
    ≡ expected (some_entry is_main_archive directory) (some_entry is_archive directory) 0
probe_entries_lem_example = probe_entries_lem directory 0 (omega arith)

choose-IsCandidate_example : IsCandidate (choose two_scored none) two_scored
choose-IsCandidate_example = choose-IsCandidate two_scored
