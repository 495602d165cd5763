-- ===== src/Engine/Services.antt =====
-- The KiriKiri services table (abi/src/engine_legacy_services.h) and the operating system, as far
-- as the host calls them. A member whose null pointer the host tests for is an `Option`.
use aether_kiri.Prelude.{ℕ, Bool, Option, List, Text}
use aether_kiri.Engine.Calls.{Result, Reply, CreateDesc, StartupState, Call, MediaCall}
use aether_kiri.Engine.Provider.{Provider}

pub record Services (E : Type 0) : Type 0 where
  pub address : ℕ
  pub struct_size : ℕ
  pub create : Option (E → CreateDesc → E × Result × ℕ)
  pub destroy : E → ℕ → E × Result
  pub open_game : E → ℕ → Text → Option Text → E × Result
  pub open_game_async : E → ℕ → Text → Option Text → E × Result
  pub get_startup_state : E → ℕ → E × Result × StartupState
  pub drain_startup_logs : E → ℕ → ℕ → E × Reply
  pub tick : E → ℕ → ℕ → E × Result
  pub invoke : Call → E → ℕ → E × Reply
  pub media_open : E → ℕ → Text → E × Result × ℕ
  pub media_destroy : E → ℕ → E × Result
  pub media : MediaCall → E → ℕ → E × Reply
  pub media_set_volume : Option (E → ℕ → ℕ → E × Reply)
  pub diagnostics : E → ℕ → ℕ → List ℕ → E × Reply
  pub get_last_error : Option (E → ℕ → Option Text)
  pub activate_audio_session : Option (E → E × Bool)
  pub drain_texture_recycle : Option (E → E)
  pub register_private_runtimes : Option (List (Provider E))

-- ENGINE_LEGACY_SERVICES_V1_REQUIRED_SIZE and the end of `media_set_volume`, with 64-bit pointers:
-- the size with its padding and 45 members; then one more.
abbrev pub services_required_size : ℕ
services_required_size = 368

abbrev pub media_set_volume_end : ℕ
media_set_volume_end = 376

-- The entries of a directory up to the first error: the file name, and whether it is a regular file.
pub record DirEntry : Type 0 where
  pub file_name : Text
  pub is_regular_file : Bool

pub record Os (E : Type 0) : Type 0 where
  pub list_directory : E → Text → List DirEntry
  -- `new (std::nothrow)`: an address, 0 on failure
  pub allocate : E → E × ℕ
  -- opens a log file and attaches it; false if that throws
  pub attach_log : E → Text → E × Bool
  -- starts a thread; the text of the exception if that fails
  pub start_thread : E → E × Option Text
