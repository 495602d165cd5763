-- ===== src/Registry.antt =====
-- abi/src/engine_runtime_provider.cpp: the list of runtime providers, with the built-in KiriKiri
-- entry, and the directory probe of that entry. The mutexes make each call one step.
pub mod Unique
pub mod Probe
use aether_kiri.Prelude.{
  ℕ, suc, ◌+◌, ◌-◌, ◌≡◌, Bool, true, false, not, ◌&&◌, ◌||◌, ℤ, pos, negsuc, Option, none, some,
  List, [], ◌∷◌, ◌++◌, Text, text, eq_text, lower, leb, ltb, ltb_ℤ, ◌==◌, if◌then◌else◌, length,
  drop, get_elem?, is_empty, is_some, option_or,
}
use aether_kiri.Engine.Calls.{Result, ok, invalid_argument, invalid_state, not_supported, major}
use aether_kiri.Engine.Provider.{Session, Provider, provider_api_version, provider_min_size}
use aether_kiri.Engine.Services.{DirEntry, Os}

pub record Registered (E : Type 0) : Type 0 where
  pub api : Provider E
  pub runtime_id : Text
  pub registration_order : ℕ
  pub is_legacy_builtin : Bool

-- The globals of the file. A function pointer is its address, 0 for null.
pub record Registry (E : Type 0) : Type 0 where
  pub providers : List (Registered E)
  pub next_registration_order : ℕ
  pub legacy_builtin_registered : Bool
  pub shader_execute : ℕ
  pub shader_user_data : ℕ

unfoldable pub normalize_runtime_id : Option Text → Text
normalize_runtime_id value = lower (option_or value [])

-- `std::isalnum` in the C locale, '-', '_' or '.'.
unfoldable pub is_id_char : ℕ → Bool
is_id_char c =
    (leb b'0' c && leb c b'9')
    || (leb b'A' c && leb c b'Z')
    || (leb b'a' c && leb c b'z')
    || c == b'-'
    || c == b'_'
    || c == b'.'

unfoldable pub all_id_chars : Text → Bool
all_id_chars [] = true
all_id_chars (c ∷ s) = is_id_char c && all_id_chars s

unfoldable pub is_valid_runtime_id : Text → Bool
is_valid_runtime_id value = not (is_empty value) && all_id_chars value

-- One entry of the directory; `some` ends the loop with a result.
unfoldable pub probe_entry : DirEntry → ℕ → Option ℕ × ℕ
probe_entry entry score =
    let name = lower entry.file_name in
    if not entry.is_regular_file
    then (none, score)
    else if eq_text name (text "data.xp3")
    then (some 100, score)
    else if ltb 4 (length name) && eq_text (drop (length name - 4) name) (text ".xp3")
    then (none, if ltb score 80 then 80 else score)
    else (none, score)

unfoldable pub probe_entries : List DirEntry → ℕ → ℕ
unfolding probe_entry
probe_entries [] score = score
probe_entries (entry ∷ rest) score =
    let (found, score') = probe_entry entry score in
    elim found [ some result ↦ result | none ↦ probe_entries rest score' ]

-- What is written: the byte count, and the bytes with their terminator.
pub record IdReply : Type 0 where
  pub result : Result
  pub bytes_written : ℕ
  pub buffer : Text

-- std::max(0, score), and 0 for a probe that throws
abbrev clamp_score : Option ℤ → ℤ
clamp_score none = pos 0
clamp_score (some score) = if ltb_ℤ (pos 0) score then score else pos 0

module _ {E : Type 0} where
  unfoldable pub legacy_kirikiri_probe : Os E → E → Text → ℕ
  legacy_kirikiri_probe os env path =
      if is_empty path then 0 else probe_entries (os.list_directory env path) 0

  -- Every member but `probe` is null. The address is that of the constant, which no other provider
  -- can have; INT32_MIN is the priority.
  unfoldable pub legacy_kirikiri_provider : Os E → Provider E
  legacy_kirikiri_provider os = record {
    address = 0;
    struct_size = 360;
    api_version = provider_api_version;
    runtime_id = some (text "kirikiri");
    priority = negsuc 2147483647;
    probe = some (λ env path. (env, some (pos (legacy_kirikiri_probe os env path))));
    create = none;
    destroy = none;
    open_game = none;
    tick = none;
    has = λ m. false;
    invoke = λ c env runtime. Session.finish env none;
    last_error = λ env runtime. none;
  }

  -- g_providers.push_back
  unfoldable pub push_provider : Provider E → Text → Bool → Registry E → Registry E
  push_provider p id builtin r = record r {
    providers =
        r.providers
        ++ record {
          api = p;
          runtime_id = id;
          registration_order = r.next_registration_order;
          is_legacy_builtin = builtin;
        }
          ∷ [];
    next_registration_order = suc r.next_registration_order;
  }

  unfoldable pub ensure_legacy_registered : Os E → Registry E → Registry E
  ensure_legacy_registered os r =
      if r.legacy_builtin_registered
      then r
      else push_provider (legacy_kirikiri_provider os) (text "kirikiri") true
          (record r { legacy_builtin_registered = true })

  unfoldable pub snapshot_providers : Os E → Registry E → List (Registered E) × Registry E
  snapshot_providers os r = let r' = ensure_legacy_registered os r in (r'.providers, r')

  unfoldable pub find_provider : Text → List (Registered E) → Option (Registered E)
  find_provider id [] = none
  find_provider id (p ∷ ps) = if eq_text p.runtime_id id then some p else find_provider id ps

  -- A provider whose required members are not null.
  unfoldable pub has_required_members : Provider E → Bool
  has_required_members p =
      is_some p.probe
      && is_some p.create
      && is_some p.destroy
      && is_some p.open_game
      && is_some p.tick

  -- The part of the registration under the lock.
  unfoldable pub register_locked : Os E → Provider E → Text → Registry E → Result × Registry E
  register_locked os p id r =
      let r' = ensure_legacy_registered os r in
      elim (find_provider id r'.providers) [
        | some found ↦ ((if found.api.address == p.address then ok else invalid_state), r')
        | none ↦ (ok, push_provider p id false r')
      ]

  -- `artemis_enabled` is AETHERKIRI_ENABLE_ARTEMIS_RUNTIME.
  unfoldable pub engine_register_runtime_provider :
      Os E → Bool → Option (Provider E) → Registry E → Result × Registry E
  engine_register_runtime_provider os artemis_enabled none r = (invalid_argument, r)
  engine_register_runtime_provider os artemis_enabled (some p) r =
      let id = normalize_runtime_id p.runtime_id in
      if ltb p.struct_size provider_min_size
      then (invalid_argument, r)
      else if not (major p.api_version == major provider_api_version)
      then (not_supported, r)
      else if not (is_valid_runtime_id id && has_required_members p)
      then (invalid_argument, r)
      else if eq_text id (text "auto") || eq_text id (text "legacy")
      then (invalid_argument, r)
      else if not artemis_enabled && eq_text id (text "artemis")
      then (not_supported, r)
      else register_locked os p id r

  unfoldable pub engine_set_runtime_fragment_shader_executor :
      ℕ → ℕ → Registry E → Result × Registry E
  engine_set_runtime_fragment_shader_executor execute user_data r = (
    ok,
    record r { shader_execute = execute; shader_user_data = if execute == 0 then 0 else user_data },
  )

  unfoldable pub engine_get_runtime_provider_count : Os E → Registry E → ℕ × Registry E
  engine_get_runtime_provider_count os r =
      let r' = ensure_legacy_registered os r in (length r'.providers, r')

  unfoldable pub copy_id : ℕ → Option (Registered E) → IdReply
  copy_id size none = record { result = invalid_argument; bytes_written = 0; buffer = [] }
  copy_id size (some p) =
      if ltb size (length p.runtime_id + 1)
      then record { result = invalid_argument; bytes_written = 0; buffer = [] }
      else record {
        result = ok;
        bytes_written = length p.runtime_id;
        buffer = p.runtime_id ++ 0 ∷ [];
      }

  -- `buffer_given` and `written_given`: the output pointers are not null.
  unfoldable pub engine_get_runtime_provider_id :
      Os E → ℕ → Bool → ℕ → Bool → Registry E → IdReply × Registry E
  engine_get_runtime_provider_id os index buffer_given size written_given r =
      if not written_given || not buffer_given || size == 0
      then (record { result = invalid_argument; bytes_written = 0; buffer = [] }, r)
      else (let r' = ensure_legacy_registered os r in
          (copy_id size (get_elem? r'.providers index), r'))

  unfoldable pub run_probe : Option (Registered E) → E → Text → E × ℤ
  run_probe none env path = (env, negsuc 0)
  run_probe (some p) env path = elim p.api.probe [
    | none ↦ (env, negsuc 0)
    | some probe ↦ (let (env', score) = probe env path in (env', clamp_score score))
  ]

  unfoldable pub engine_probe_runtime_provider :
      Os E → Option Text → Option Text → E → Registry E → E × ℤ × Registry E
  engine_probe_runtime_provider os runtime_id game_root env r =
      let id = normalize_runtime_id runtime_id in
      let path = option_or game_root [] in
      if not (is_valid_runtime_id id) || is_empty path
      then (env, negsuc 0, r)
      else (let (providers, r') = snapshot_providers os r in
          let (env', score) = run_probe (find_provider id providers) env path in (env', score, r'))
