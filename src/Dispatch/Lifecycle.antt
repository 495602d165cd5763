-- ===== src/Dispatch/Lifecycle.antt =====
-- The life of a handle (abi/src/engine_api_dispatch.cpp): engine_install_legacy_services,
-- engine_create and engine_destroy.
use aether_kiri.Prelude.{
  ℕ, Bool, false, not, ◌&&◌, Option, none, some, List, [], ◌∷◌, Text, text, ltb, ◌==◌,
  if◌then◌else◌, is_empty, is_some, option_or, lookup, insert, remove, nat_key,
}
use aether_kiri.Engine.Calls.{
  Result, ok, invalid_argument, invalid_state, not_supported, internal_error, Reply, plain,
  StartupState, CreateDesc, create_desc_size, engine_api_version, major,
}
use aether_kiri.Engine.Provider.{Provider}
use aether_kiri.Engine.Services.{Services, services_required_size, Os}
use aether_kiri.Registry.{Registry, engine_register_runtime_provider}
use aether_kiri.Dispatch.State.{
  Backend, Thread, Handle, World, Local, Action, pure, ◌>>=◌, ◌>>◌, gets, asks, modify, outside,
  deref, when,
}
use aether_kiri.Dispatch.Callbacks.{run_uncaught}
use aether_kiri.Dispatch.Route.{Api, reject, accept}
use aether_kiri.Dispatch.Open.{thread_step}

-- A path of the description: empty becomes null.
abbrev or_null : Text → Option Text
or_null path = if is_empty path then none else some path

-- The keys whose value is `address`, and the map without them.
unfoldable pub owned_by : ℕ → List (ℕ × ℕ) → List ℕ
owned_by address [] = []
owned_by address ((media, owner) ∷ rest) =
    let others = owned_by address rest in if owner == address then media ∷ others else others

unfoldable pub not_owned_by : ℕ → List (ℕ × ℕ) → List (ℕ × ℕ)
not_owned_by address [] = []
not_owned_by address ((media, owner) ∷ rest) =
    let others = not_owned_by address rest in
    if owner == address then others else (media, owner) ∷ others

module _ {E : Type 0} where
  unfoldable pub is_complete_table : Services E → Bool
  is_complete_table s =
      not (ltb s.struct_size services_required_size)
      && is_some s.create
      && is_some s.get_last_error
      && is_some s.activate_audio_session
      && is_some s.drain_texture_recycle

  unfoldable pub install_over : Option (Services E) → Services E → World E → Result × World E
  install_over none s w = (ok, record w { services = some s })
  install_over (some current) s w = (if current.address == s.address then ok else invalid_state, w)

  unfoldable pub engine_install_legacy_services : Option (Services E) → World E → Result × World E
  unfolding is_complete_table install_over
  engine_install_legacy_services none w = (invalid_argument, w)
  engine_install_legacy_services (some s) w =
      if not (is_complete_table s) then (invalid_argument, w) else install_over w.services s w

  unfoldable pub engine_get_runtime_api_version : Bool → Api E
  engine_get_runtime_api_version version_given =
      if not version_given
      then reject invalid_argument (text "out_api_version is null")
      else accept (record { result = ok; out = engine_api_version ∷ [] })

  unfoldable pub register_all : Os E → Bool → List (Provider E) → Registry E → Registry E
  register_all os artemis_enabled [] r = r
  register_all os artemis_enabled (p ∷ ps) r =
      register_all os artemis_enabled ps
        (engine_register_runtime_provider os artemis_enabled (some p) r).1

  -- services->register_private_runtimes(), where there is one
  unfoldable pub register_private : World E → World E
  unfolding register_all
  register_private w = elim w.services [
    | none ↦ w
    | some s ↦ elim s.register_private_runtimes [
      | none ↦ w
      | some providers ↦ record w {
        registry = register_all w.os w.build.artemis_enabled providers w.registry;
      }
    ]
  ]

  -- The handle that engine_create fills in.
  unfoldable pub new_handle : CreateDesc → World E → Handle E
  new_handle desc w =
      let writable = option_or desc.writable_path [] in
      let cache = option_or desc.cache_path [] in
      record {
        legacy = 0;
        backend = Backend.undecided;
        provider = none;
        runtime = 0;
        create_desc = record desc { writable_path = or_null writable; cache_path = or_null cache };
        writable_path = writable;
        cache_path = cache;
        requested_runtime = text "auto";
        beta_runtime_allowed = w.build.beta_runtime_allowed;
        pending_options = [];
        surface_width = 0;
        surface_height = 0;
        has_surface_size = false;
        shader_execute = w.registry.shader_execute;
        provider_media_handles = [];
        startup_thread = Thread.absent;
        startup_state = StartupState.idle;
        startup_logs = [];
        platform_requests = [];
        last_error = [];
        provider_resume_pending = false;
      }

  unfoldable pub allocate_handle : CreateDesc → Api E
  unfolding new_handle
  allocate_handle desc w =
      let (env, address) = w.os.allocate w.env in
      let w' = record w { env = env } in
      if address == 0
      then reject internal_error (text "failed to allocate engine dispatch handle") w'
      else accept (record { result = ok; out = address ∷ [] })
          (record w' { handles = insert address (new_handle desc w') w'.handles })

  -- The tests of the description, and the handle.
  unfoldable pub create_checked : CreateDesc → Api E
  unfolding allocate_handle
  create_checked desc =
      if ltb desc.struct_size create_desc_size
      then reject invalid_argument (text "engine_create_desc_t.struct_size is too small")
      else if not (major engine_api_version == major desc.api_version)
      then reject not_supported (text "unsupported engine API major version")
      else allocate_handle desc

  -- The reply is the new handle.
  unfoldable pub engine_create : Option CreateDesc → Bool → Api E
  unfolding register_private create_checked
  engine_create none out_given w =
      reject invalid_argument (text "engine_create requires non-null desc and out_handle") w
  engine_create (some desc) out_given w =
      if not out_given
      then reject invalid_argument (text "engine_create requires non-null desc and out_handle") w
      else create_checked desc (register_private w)

  -- join: the rest of the startup thread's steps, two at most.
  unfoldable pub join_startup_thread : Action E (Unit {0})
  join_startup_thread = do
    thread_step
    thread_step
    modify (λ h. record h { startup_thread = Thread.absent })

  unfoldable pub destroy_provider_runtime : Action E (Unit {0})
  unfolding run_uncaught
  destroy_provider_runtime = do
    provider ← gets (λ h. h.provider)
    runtime ← gets (λ h. h.runtime)
    elim provider [
      | none ↦ pure tt
      | some p ↦ when (not (runtime == 0)) (do
        destroy ← deref p.destroy
        run_uncaught (λ env. destroy env runtime)
        modify (λ h. record h { runtime = 0 }))
    ]

  unfoldable pub destroy_media : List ℕ → Action E (Unit {0})
  destroy_media [] = pure tt
  destroy_media (media ∷ rest) = do
    services ← deref (← asks (λ w. w.services))
    result ← outside (λ env. services.media_destroy env media)
    destroy_media rest

  unfoldable pub destroy_legacy : Action E Result
  destroy_legacy = do
    legacy ← gets (λ h. h.legacy)
    if legacy == 0 then pure ok else do
      services ← deref (← asks (λ w. w.services))
      outside (λ env. services.destroy env legacy)

  -- What follows the removal from the set of live handles.
  unfoldable pub destroy_body : List ℕ → Action E Result
  unfolding join_startup_thread destroy_provider_runtime destroy_media destroy_legacy
  destroy_body owned_media = do
    join_startup_thread
    destroy_provider_runtime
    media ← gets (λ h. h.provider_media_handles)
    destroy_media media
    modify (λ h. record h { provider_media_handles = [] })
    destroy_media owned_media
    destroy_legacy

  -- The handle is deleted: only the globals are left.
  abbrev pub release : Option (Result × Local E) → Option (Reply × World E)
  release none = none
  release (some (r, l)) = some (plain r, record l.world { thread_error = [] })

  unfoldable pub engine_destroy : ℕ → Api E
  unfolding destroy_body owned_by not_owned_by
  engine_destroy address w =
      if address == 0 then accept (plain ok) w else elim (lookup address w.handles) [
        | none ↦ reject invalid_argument (text "engine handle is invalid or already destroyed") w
        | some h ↦ release (
            destroy_body (owned_by address w.media_handles) (record {
              world = record w {
                handles = remove address w.handles;
                media_handles = not_owned_by address w.media_handles;
              };
              handle = h;
            }))
      ]
