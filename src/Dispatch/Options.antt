-- ===== src/Dispatch/Options.antt =====
-- engine_set_option, engine_set_surface_size and engine_submit_platform_response of
-- abi/src/engine_api_dispatch.cpp, in a build without text translation.
use aether_kiri.Prelude.{
  ℕ, Bool, true, not, ◌&&◌, ◌||◌, Option, none, some, [], Text, text, eq_text, lower, ◌==◌,
  if◌then◌else◌, is_empty, option_or, insert, text_key,
}
use aether_kiri.Engine.Calls.{
  ok, invalid_argument, invalid_state, not_supported, is_ok, Reply, plain, Call, Member,
}
use aether_kiri.Engine.Provider.{provider_has}
use aether_kiri.Dispatch.State.{Backend, Action, pure, ◌>>=◌, ◌>>◌, gets, asks, modify, on_ok, when}
use aether_kiri.Dispatch.Errors.{
  set_provider_error, ensure_legacy, unsupported, set_thread_error, handle_error,
}
use aether_kiri.Dispatch.Route.{Api, reject, locked, call_legacy, call_member}

abbrev is_yes : Text → Bool
is_yes value =
    eq_text value (text "1")
    || eq_text value (text "true")
    || eq_text value (text "yes")
    || eq_text value (text "on")

unfoldable pub is_text_translation_option : Text → Bool
is_text_translation_option key =
    eq_text key (text "text_translation.enabled")
    || eq_text key (text "text_translation.model_path")
    || eq_text key (text "text_translation.target_language")

module _ {E : Type 0} where
  -- A provider call of this member, or `unsupported` where it is null.
  unfoldable pub call_or_unsupported : Call → Member → Text → Text → Action E Reply
  unfolding call_member
  call_or_unsupported c m operation fallback = do
    provider ← gets (λ h. h.provider)
    if not (provider_has provider m) then unsupported operation else do
      reply ← call_member c (plain not_supported)
      set_provider_error reply.result fallback
      pure reply

  -- "runtime": only before a backend is selected
  unfoldable pub set_runtime_option : Text → Action E Reply
  set_runtime_option requested = do
    build ← asks (λ w. w.build)
    backend ← gets (λ h. h.backend)
    elim backend [
      | Backend.undecided ↦
          (if not build.artemis_enabled && eq_text requested (text "artemis")
            then handle_error not_supported
                (text "Artemis runtime is available only in internal Debug builds")
            else do
              modify (λ h. record h { requested_runtime = requested })
              set_thread_error []
              pure (plain ok))
      | _ ↦ handle_error invalid_state (text "runtime option must be set before opening a game")
    ]

  unfoldable pub set_engine_option : Text → Text → Action E Reply
  unfolding call_or_unsupported
  set_engine_option key value = do
    modify (λ h. record h { pending_options = insert key value h.pending_options })
    backend ← gets (λ h. h.backend)
    elim backend [
      | Backend.provider ↦
          call_or_unsupported (Call.set_option key value) Member.set_option (text "set_option")
            (text "runtime provider rejected option")
      | _ ↦ (do
        ready ← ensure_legacy
        on_ok ready.result (call_legacy (λ services. services.invoke (Call.set_option key value))))
    ]

  unfoldable pub set_option : Text → Text → Action E Reply
  unfolding set_runtime_option set_engine_option is_text_translation_option
  set_option raw_key raw_value =
      let key = lower raw_key in
      let value = lower raw_value in
      if eq_text key (text "artemis_beta_allowed")
      then (do set_thread_error []; pure (plain ok))
      else if eq_text key (text "beta_runtime_allowed")
      then (do
        modify (λ h. record h { beta_runtime_allowed = is_yes value })
        set_thread_error []
        pure (plain ok))
      else if eq_text key (text "runtime")
      then set_runtime_option value
      else if is_text_translation_option key
      then handle_error not_supported
          (text "local-model text translation is unavailable in this build")
      else set_engine_option raw_key raw_value

  -- A null option, key or value is `none`.
  unfoldable pub engine_set_option : ℕ → Option Text → Option Text → Api E
  unfolding locked set_option
  engine_set_option address key none =
      reject invalid_argument (text "option key/value must be non-null and key must be non-empty")
  engine_set_option address key (some value) =
      let name = option_or key [] in
      if is_empty name
      then reject invalid_argument
          (text "option key/value must be non-null and key must be non-empty")
      else locked address (set_option name value)

  unfoldable pub resize : ℕ → ℕ → Action E Reply
  unfolding call_or_unsupported
  resize width height = do
    backend ← gets (λ h. h.backend)
    elim backend [
      | Backend.provider ↦
          call_or_unsupported (Call.set_surface_size width height) Member.set_surface_size
            (text "set_surface_size") (text "set_surface_size")
      | _ ↦ (do
        ready ← ensure_legacy
        on_ok ready.result
            (call_legacy (λ services. services.invoke (Call.set_surface_size width height))))
    ]

  -- The size is kept only if the runtime took it.
  unfoldable pub set_surface_size : ℕ → ℕ → Action E Reply
  unfolding resize
  set_surface_size width height = do
    reply ← resize width height
    when (is_ok reply.result) (
        modify (λ h. record h {
          surface_width = width;
          surface_height = height;
          has_surface_size = true;
        }))
    pure reply

  unfoldable pub engine_set_surface_size : ℕ → ℕ → ℕ → Api E
  unfolding locked set_surface_size
  engine_set_surface_size address width height =
      if width == 0 || height == 0
      then reject invalid_argument (text "surface width and height must be greater than zero")
      else locked address (set_surface_size width height)

  unfoldable pub submit_response : Text → Text → Action E Reply
  unfolding call_or_unsupported
  submit_response operation argument = do
    runtime ← gets (λ h. h.runtime)
    backend ← gets (λ h. h.backend)
    elim backend [
      | Backend.provider ↦
          (if runtime == 0
            then unsupported (text "platform responses")
            else call_or_unsupported (Call.submit_platform_response operation argument)
                Member.submit_platform_response (text "platform responses")
                (text "runtime rejected platform response"))
      | _ ↦ unsupported (text "platform responses")
    ]

  unfoldable pub engine_submit_platform_response : ℕ → Option Text → Option Text → Api E
  unfolding locked submit_response
  engine_submit_platform_response address operation argument =
      let name = option_or operation [] in
      if is_empty name
      then reject invalid_argument (text "platform response operation is empty")
      else locked address (submit_response name (option_or argument []))
