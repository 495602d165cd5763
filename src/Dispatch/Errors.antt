-- ===== src/Dispatch/Errors.antt =====
-- The error texts of abi/src/engine_api_dispatch.cpp, and the lazy creation of the KiriKiri handle.
use aether_kiri.Prelude.{
  Bool, not, ◌||◌, Option, none, some, [], ◌++◌, Text, text, eq_text, is_empty, option_or, is_some,
  ◌==◌, if◌then◌else◌, lower,
}
use aether_kiri.Engine.Calls.{Result, ok, not_supported, is_ok, Reply, plain, Member}
use aether_kiri.Engine.Provider.{provider_has}
use aether_kiri.Dispatch.State.{
  Backend, Action, pure, ◌>>=◌, ◌>>◌, gets, asks, modify, modify_world, outside, deref,
}

unfoldable pub normalize : Option Text → Text
normalize value = lower (option_or value [])

-- `error != nullptr && error[0] != '\0' ? error : fallback`
abbrev pub or_fallback : Option Text → Text → Text
or_fallback none fallback = fallback
or_fallback (some error) fallback = if is_empty error then fallback else error

module _ {E : Type 0} where
  abbrev pub set_thread_error : Text → Action E (Unit {0})
  set_thread_error message = modify_world (λ w. record w { thread_error = message })

  abbrev pub set_last_error : Text → Action E (Unit {0})
  set_last_error message = modify (λ h. record h { last_error = message })

  abbrev pub thread_error : Result → Text → Action E Reply
  thread_error r message = do set_thread_error message; pure (plain r)

  -- `handle->last_error = message; return ThreadError(result, handle->last_error.c_str());`
  abbrev pub handle_error : Result → Text → Action E Reply
  handle_error r message = do set_last_error message; thread_error r message

  abbrev pub clear_errors : Action E (Unit {0})
  clear_errors = do set_last_error []; set_thread_error []

  -- provider->get_last_error(runtime), null where the provider has no such member
  abbrev pub provider_error : Action E (Option Text)
  provider_error = do
    provider ← gets (λ h. h.provider)
    runtime ← gets (λ h. h.runtime)
    env ← asks (λ w. w.env)
    pure (elim provider [
      | none ↦ none
      | some p ↦
          (if provider_has (some p) Member.get_last_error then p.last_error env runtime else none)
    ])

  unfoldable pub set_provider_error : Result → Text → Action E (Unit {0})
  set_provider_error result fallback = if is_ok result then clear_errors else do
    error ← provider_error
    let message = or_fallback error fallback
    set_last_error message
    set_thread_error message

  unfoldable pub set_legacy_error : Result → Text → Action E (Unit {0})
  set_legacy_error result fallback = if is_ok result then clear_errors else do
    services ← deref (← asks (λ w. w.services))
    get_last_error ← deref services.get_last_error
    legacy ← gets (λ h. h.legacy)
    env ← asks (λ w. w.env)
    let own = or_fallback (get_last_error env legacy) []
    let error = if is_empty own then get_last_error env 0 else some own
    let message = or_fallback error fallback
    set_last_error message
    set_thread_error message

  unfoldable pub create_legacy : Action E Reply
  unfolding set_legacy_error
  create_legacy = do
    services ← deref (← asks (λ w. w.services))
    create ← deref services.create
    desc ← gets (λ h. h.create_desc)
    (result, legacy) ← outside (λ env. let (env', r, h) = create env desc in (env', (r, h)))
    if is_ok result then (do modify (λ h. record h { legacy = legacy }); pure (plain ok)) else (do
      set_legacy_error result (text "failed to create the KiriKiri backend")
      pure (plain result))

  unfoldable pub ensure_legacy : Action E Reply
  unfolding create_legacy
  ensure_legacy = do
    legacy ← gets (λ h. h.legacy)
    services ← asks (λ w. w.services)
    if not (legacy == 0) then pure (plain ok) else elim services [
      | none ↦
          handle_error not_supported
            (text "KiriKiri backend services are not installed in this host")
      | some s ↦
          (if is_some s.create
            then create_legacy
            else handle_error not_supported
                (text "KiriKiri backend services are not installed in this host"))
    ]

  unfoldable pub unsupported : Text → Action E Reply
  unsupported operation =
      handle_error not_supported (text "runtime provider does not implement " ++ operation)

  unfoldable pub check_beta_id : Bool → Text → Action E Reply
  check_beta_id allowed runtime_id =
      if not (eq_text runtime_id (text "rfvp")) || allowed
      then pure (plain ok)
      else handle_error not_supported (text "RFVP runtime requires active beta access")

  unfoldable pub check_beta_runtime_access : Action E Reply
  unfolding check_beta_id
  check_beta_runtime_access = do
    backend ← gets (λ h. h.backend)
    provider ← gets (λ h. h.provider)
    allowed ← gets (λ h. h.beta_runtime_allowed)
    elim backend [
      | Backend.provider ↦ elim provider [
        | none ↦ pure (plain ok)
        | some p ↦ check_beta_id allowed (normalize p.runtime_id)
      ]
      | _ ↦ pure (plain ok)
    ]
