-- ===== src/Engine/Provider.antt =====
-- A runtime provider (abi/include/engine_runtime_provider.h). What stands behind its function
-- pointers is not part of the host: a call is any tree of callbacks into the host, and it ends by
-- returning or by throwing.
use aether_kiri.Prelude.{ℕ, ℤ, Bool, ◌&&◌, Option, none, some, Text, leb}
use aether_kiri.Engine.Calls.{Result, Reply, CreateDesc, Member, member_end, Call, MediaCall}

-- A call of one member of engine_runtime_media_host_v1_t. A flag says that the output pointer is
-- not null.
pub data MediaRequest : Type 0 where
  open_media : Option Text → Bool → MediaRequest
  destroy : ℕ → MediaRequest
  call : ℕ → MediaCall → MediaRequest
  get_state : ℕ → Bool → MediaRequest
  read_frame : ℕ → Bool → ℕ → Bool → MediaRequest

-- A provider's run: callbacks to `host.log`, `host.platform_request` and the media host, then a
-- value, or an exception (`none`). The outside state is handed over at a media call, since the
-- KiriKiri engine serves it.
pub data Session (E A : Type 0) : Type 0 where
  finish : E → Option A → Session E A
  log : ℕ → Option Text → Option Text → Session E A → Session E A
  request : Option Text → Option Text → Session E A → Session E A
  media : E → MediaRequest → (E → Reply → Session E A) → Session E A

-- engine_runtime_provider_v1_t at the address `address`. A member that may be null is an `Option`;
-- those of `Member` are null where `has` is false. `create` gives its result, or nothing if it throws
-- after it has written the runtime; `none` of a session is a throw before that.
pub record Provider (E : Type 0) : Type 0 where
  pub address : ℕ
  pub struct_size : ℕ
  pub api_version : ℕ
  pub runtime_id : Option Text
  pub priority : ℤ
  pub probe : Option (E → Text → E × Option ℤ)
  pub create : Option (E → CreateDesc → Session E (Option Result × ℕ))
  pub destroy : Option (E → ℕ → Session E (Unit {0}))
  pub open_game : Option (E → ℕ → Text → Option Text → Session E Result)
  pub tick : Option (E → ℕ → ℕ → Session E Result)
  pub has : Member → Bool
  pub invoke : Call → E → ℕ → Session E Reply
  pub last_error : E → ℕ → Option Text

abbrev pub provider_api_version : ℕ
provider_api_version = 0x01000000

-- ENGINE_RUNTIME_PROVIDER_V1_MIN_SIZE: everything through `tick`.
abbrev pub provider_min_size : ℕ
provider_min_size = 80

module _ {E : Type 0} where
  -- PROVIDER_HAS
  unfoldable pub provider_has : Option (Provider E) → Member → Bool
  provider_has none m = Bool.false
  provider_has (some p) m = leb (member_end m) p.struct_size && p.has m
