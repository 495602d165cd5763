-- ===== src/Dispatch/State.antt =====
-- The state of abi/src/engine_api_dispatch.cpp, and the actions that its functions are.
use aether_kiri.Prelude.{ℕ, Bool, true, false, Option, none, some, List, Text, if◌then◌else◌}
use aether_kiri.Engine.Calls.{Result, Reply, plain, is_ok, CreateDesc, StartupState}
use aether_kiri.Engine.Provider.{Provider}
use aether_kiri.Engine.Services.{Services, Os}
use aether_kiri.Registry.{Registry}

-- enum class BackendKind
pub data Backend : Type 0 where
  undecided legacy provider : Backend

-- StartupThread: joinable in every state but `absent`. The thread first opens the game, without the
-- handle's mutex, and then publishes the result under it.
pub data Thread : Type 0 where
  absent : Thread
  spawned : Text → Option Text → Thread
  opened : Result → Thread
  finished : Thread

abbrev pub joinable : Thread → Bool
joinable Thread.absent = false
joinable _ = true

-- DispatchHandle. A null pointer to an engine object is 0. The tables `host`,
-- `fragment_shader_host` and `media_host` never change; `shader_execute` says whether the second is
-- handed over.
pub record Handle (E : Type 0) : Type 0 where
  pub legacy : ℕ
  pub backend : Backend
  pub provider : Option (Provider E)
  pub runtime : ℕ
  pub create_desc : CreateDesc
  pub writable_path : Text
  pub cache_path : Text
  pub requested_runtime : Text
  pub beta_runtime_allowed : Bool
  pub pending_options : List (Text × Text)
  pub surface_width : ℕ
  pub surface_height : ℕ
  pub has_surface_size : Bool
  pub shader_execute : ℕ
  pub provider_media_handles : List ℕ
  pub startup_thread : Thread
  pub startup_state : StartupState
  pub startup_logs : List Text
  pub platform_requests : List (Text × Text)
  pub last_error : Text
  pub provider_resume_pending : Bool

-- What the build fixes: AETHERKIRI_ENABLE_ARTEMIS_RUNTIME, and the first value of
-- `beta_runtime_allowed`, which NDEBUG decides.
pub record Build : Type 0 where
  pub artemis_enabled : Bool
  pub beta_runtime_allowed : Bool

-- The globals, with the live handles by address and the error of the calling thread.
pub record World (E : Type 0) : Type 0 where
  pub env : E
  pub os : Os E
  pub build : Build
  pub registry : Registry E
  pub services : Option (Services E)
  pub handles : List (ℕ × Handle E)
  pub media_handles : List (ℕ × ℕ)
  pub thread_error : Text

-- A world with one handle of it taken out, under the handle's mutex.
pub record Local (E : Type 0) : Type 0 where
  pub world : World E
  pub handle : Handle E

-- `none` is a call through a null pointer, or an exception that nothing catches.
abbrev pub Action : Type 0 → Type 0 → Type 0
Action E A = Local E → Option (A × Local E)

module _ {E : Type 0} where
  unfoldable pub pure : {A : Type 0} → A → Action E A
  pure a l = some (a, l)

  infixl 5 ◌>>=◌ ◌>>◌
  unfoldable pub ◌>>=◌ : {A B : Type 0} → Action E A → (A → Action E B) → Action E B
  ◌>>=◌ m f l = elim (m l) [ none ↦ none | some (a, l') ↦ f a l' ]

  abbrev pub ◌>>◌ : {B : Type 0} → Action E (Unit {0}) → Action E B → Action E B
  m >> k = m >>= λ _. k

  unfoldable pub fault : {A : Type 0} → Action E A
  fault l = none

  unfoldable pub gets : {A : Type 0} → (Handle E → A) → Action E A
  gets f l = some (f l.handle, l)

  unfoldable pub asks : {A : Type 0} → (World E → A) → Action E A
  asks f l = some (f l.world, l)

  unfoldable pub modify : (Handle E → Handle E) → Action E (Unit {0})
  modify f l = some (tt, record l { handle = f l.handle })

  unfoldable pub modify_world : (World E → World E) → Action E (Unit {0})
  modify_world f l = some (tt, record l { world = f l.world })

  -- A call of code outside the host.
  unfoldable pub outside : {A : Type 0} → (E → E × A) → Action E A
  outside f l =
      let (env, a) = f l.world.env in some (a, record l { world = record l.world { env = env } })

  -- A pointer that is called or read without a test.
  unfoldable pub deref : {A : Type 0} → Option A → Action E A
  deref none l = none
  deref (some a) l = some (a, l)

  -- if (result != ENGINE_RESULT_OK) return result;
  abbrev pub on_ok : Result → Action E Reply → Action E Reply
  on_ok r k = if is_ok r then k else pure (plain r)

  abbrev pub when : Bool → Action E (Unit {0}) → Action E (Unit {0})
  when b k = if b then k else pure tt

  -- `unfolding run` opens all of the above.
  unfoldable pub run : {A : Type 0} → Action E A → Local E → Option (A × Local E)
  unfolding pure ◌>>=◌ fault gets asks modify modify_world outside deref
  run m l = m l
