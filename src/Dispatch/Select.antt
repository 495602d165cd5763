-- ===== src/Dispatch/Select.antt =====
-- SelectBackendLocked of abi/src/engine_api_dispatch.cpp: which runtime opens a game directory, and
-- the creation of the provider's runtime.
use aether_kiri.Prelude.{
  ℕ, Bool, not, ◌&&◌, ◌||◌, ℤ, pos, ltb_ℤ, leb_ℤ, eq_ℤ, Option, none, some, List, [], ◌∷◌, ◌++◌,
  Text, text, eq_text, lower, ltb, ◌==◌, if◌then◌else◌, is_empty, option_or,
}
use aether_kiri.Engine.Calls.{
  Result, ok, not_supported, internal_error, is_ok, Reply, plain, Member, Call,
}
use aether_kiri.Engine.Provider.{Provider, provider_has}
use aether_kiri.Registry.{Registered, snapshot_providers, find_provider}
use aether_kiri.Dispatch.State.{
  Backend, Action, pure, ◌>>=◌, ◌>>◌, gets, asks, modify, modify_world, outside, deref, on_ok, when,
}
use aether_kiri.Dispatch.Errors.{
  set_provider_error, ensure_legacy, unsupported, handle_error, clear_errors,
}
use aether_kiri.Dispatch.Callbacks.{run_session, run_uncaught}

abbrev pub Scored : Type 0 → Type 0
Scored E = Registered E × ℤ

abbrev pub creation_error : Result → Result
creation_error Result.ok = internal_error
creation_error r = r

-- Older hosts request "legacy".
abbrev pub requested_id : Text → Text
requested_id requested =
    let id = lower requested in if eq_text id (text "legacy") then text "kirikiri" else id

-- The result and `runtime` after the call of `create` and its `catch`.
abbrev pub created_result : Option (Option Result × ℕ) → Result × ℕ
created_result none = (internal_error, 0)
created_result (some (none, runtime)) = (internal_error, runtime)
created_result (some (some result, runtime)) = (result, runtime)

module _ {E : Type 0} where
  -- A higher score, or as high with a higher priority, or with the same priority and an earlier
  -- registration.
  unfoldable pub replaces : Scored E → Scored E → Bool
  replaces (c, score) (s, best) =
      ltb_ℤ best score
      || (eq_ℤ score best && ltb_ℤ s.api.priority c.api.priority)
      || (eq_ℤ score best
          && eq_ℤ c.api.priority s.api.priority
          && ltb c.registration_order s.registration_order)

  -- Only a positive score is considered.
  unfoldable pub pick : Scored E → Option (Scored E) → Option (Scored E)
  unfolding replaces
  pick c none = if leb_ℤ c.1 (pos 0) then none else some c
  pick c (some best) =
      if leb_ℤ c.1 (pos 0) then some best else if replaces c best then some c else some best

  -- probe, with 0 for an exception; a null `probe` is called all the same
  unfoldable pub probe_candidate : Registered E → Text → Action E ℤ
  probe_candidate c path = do
    probe ← deref c.api.probe
    score ← outside (λ env. probe env path)
    pure (option_or score (pos 0))

  unfoldable pub consider : Text → Registered E → Option (Scored E) → Action E (Option (Scored E))
  unfolding probe_candidate
  consider path c best =
      if c.is_legacy_builtin
      then pure best
      else do score ← probe_candidate c path; pure (pick (c, score) best)

  unfoldable pub select_auto :
      Text → List (Registered E) → Option (Scored E) → Action E (Option (Scored E))
  select_auto path [] best = pure best
  select_auto path (c ∷ cs) best = do best' ← consider path c best; select_auto path cs best'

  -- What follows the provider's answer to one option: `rest` goes on with the other options.
  unfoldable pub after_option : Text → Action E Reply → Result → Action E Reply
  after_option key rest Result.ok = rest
  after_option key rest Result.not_supported = do
    modify (λ h. record h {
      startup_logs = h.startup_logs ++ (text "runtime option not applicable: " ++ key) ∷ [];
    })
    rest
  after_option key rest other = do
    set_provider_error other (text "runtime provider rejected an option")
    pure (plain other)

  -- The options set before the selection. One that the provider does not support is only logged.
  unfoldable pub replay_options : Provider E → List (Text × Text) → Action E Reply
  unfolding after_option
  replay_options p [] = pure (plain ok)
  replay_options p ((key, value) ∷ options) = do
    runtime ← gets (λ h. h.runtime)
    reply ← run_uncaught (λ env. p.invoke (Call.set_option key value) env runtime)
    after_option key (replay_options p options) reply.result

  unfoldable pub replay_surface_size : Provider E → Action E Reply
  replay_surface_size p = do
    has_size ← gets (λ h. h.has_surface_size)
    width ← gets (λ h. h.surface_width)
    height ← gets (λ h. h.surface_height)
    runtime ← gets (λ h. h.runtime)
    if not has_size
        then pure (plain ok)
        else if not (provider_has (some p) Member.set_surface_size)
        then unsupported (text "set_surface_size")
        else do
          reply ← run_uncaught (λ env. p.invoke (Call.set_surface_size width height) env runtime)
          if is_ok reply.result then pure (plain ok) else do
            set_provider_error reply.result
                (text "runtime provider rejected the render surface size")
            pure (plain reply.result)

  -- The end of the selection, after the runtime has been created.
  unfoldable pub replay_settings : Provider E → Action E Reply
  unfolding replay_surface_size
  replay_settings p = do
    options ← gets (λ h. h.pending_options)
    replayed ←
        (if provider_has (some p) Member.set_option
          then replay_options p options
          else pure (plain ok))
    on_ok replayed.result
        do sized ← replay_surface_size p; on_ok sized.result do clear_errors; pure (plain ok)

  unfoldable pub configure_runtime : Provider E → Action E Reply
  unfolding replay_settings
  configure_runtime p = do modify (λ h. record h { backend = Backend.provider }); replay_settings p

  unfoldable pub destroy_runtime : Provider E → ℕ → Action E (Unit {0})
  destroy_runtime p runtime = do
    destroy ← deref p.destroy
    run_uncaught (λ env. destroy env runtime)

  unfoldable pub failed_creation : Provider E → ℕ → Result → Action E Reply
  unfolding destroy_runtime
  failed_creation p runtime result = do
    set_provider_error (creation_error result) (text "runtime provider creation failed")
    when (not (runtime == 0)) (destroy_runtime p runtime)
    modify (λ h. record h { runtime = 0 })
    pure (plain (creation_error result))

  unfoldable pub create_runtime : Provider E → Action E Reply
  unfolding configure_runtime failed_creation
  create_runtime p = do
    modify (λ h. record h { provider = some p })
    create ← deref p.create
    desc ← gets (λ h. h.create_desc)
    created ← run_session (λ env. create env desc)
    let (result, runtime) = created_result created
    modify (λ h. record h { runtime = runtime })
    if is_ok result && not (runtime == 0)
        then configure_runtime p
        else failed_creation p runtime result

  unfoldable pub use_legacy : Action E Reply
  use_legacy = do modify (λ h. record h { backend = Backend.legacy }); ensure_legacy

  unfoldable pub select_scored : Option (Scored E) → Action E Reply
  unfolding use_legacy create_runtime
  select_scored none = use_legacy
  select_scored (some (c, score)) = create_runtime c.api

  unfoldable pub select_found : Text → Option (Registered E) → Action E Reply
  unfolding use_legacy create_runtime
  select_found requested none =
      handle_error not_supported
        (text "requested runtime provider is not registered: " ++ requested)
  select_found requested (some c) = if c.is_legacy_builtin then use_legacy else create_runtime c.api

  unfoldable pub snapshot : Action E (List (Registered E))
  snapshot = do
    os ← asks (λ w. w.os)
    (providers, registry) ← asks (λ w. snapshot_providers os w.registry)
    modify_world (λ w. record w { registry = registry })
    pure providers

  unfoldable pub select_undecided : Text → Action E Reply
  unfolding select_scored select_found snapshot
  select_undecided path = do
    requested ← gets (λ h. requested_id h.requested_runtime)
    providers ← snapshot
    if is_empty requested || eq_text requested (text "auto")
        then (do selected ← select_auto path providers none; select_scored selected)
        else select_found requested (find_provider requested providers)

  unfoldable pub select_backend : Text → Action E Reply
  unfolding select_undecided
  select_backend path = do
    backend ← gets (λ h. h.backend)
    elim backend [ Backend.undecided ↦ select_undecided path | _ ↦ pure (plain ok) ]
