-- ===== src/Dispatch/Invariant/Rules.antt =====
-- The invariant's rules for the shared actions of the dispatch layer.
use aether_kiri.Prelude.{ℕ, refl, Bool, Option, none, some, List, [], ◌∷◌, ◌++◌, Text}
use aether_kiri.Engine.Calls.{Reply, Result, plain, Call}
use aether_kiri.Engine.Provider.{Provider, Session}
use aether_kiri.Engine.Services.{Services}
use aether_kiri.Dispatch.State.{Backend, Handle, Action, pure, modify, modify_world, outside}
use aether_kiri.Dispatch.Errors.{
  set_provider_error, set_legacy_error, handle_error, ensure_legacy, unsupported,
  check_beta_runtime_access, check_beta_id, normalize,
}
use aether_kiri.Dispatch.Callbacks.{run_session, run_uncaught, run_caught}
use aether_kiri.Dispatch.Route.{
  call_legacy, call_given, call_member, finish_reply, finish_provider, route_body,
}
use aether_kiri.Dispatch.Keeps.{
  Keeps, Keeps-pure, Keeps-gets, Keeps-asks, Keeps-if, Keeps-deref, Keeps-bind, keeps_rules,
}
use aether_kiri.Dispatch.Frame.{
  set_provider_error-Calm, set_legacy_error-Calm, handle_error-Calm, ensure_legacy-Calm, Calm-env,
  Calm-last_error, Calm-thread_error,
}
use aether_kiri.Dispatch.Frame.Sessions.{run_uncaught-Calm, run_session-Calm, run_caught-Calm}
use aether_kiri.Dispatch.Invariant.State.{Sound, Sound-Keeps, Sound-modify}

module _ {E : Type 0} {s : Option (Services E)} {hs : List (ℕ × Handle E)}
    {V : Backend → Option (Provider E) → ℕ → Type 0} where
  pub set_provider_error-Sound :
      (r : Result) (m : Text) → Keeps (Sound s hs V) (set_provider_error r m)
  set_provider_error-Sound r m = Sound-Keeps _ (λ c. set_provider_error-Calm r m)

  pub handle_error-Sound : (r : Result) (m : Text) → Keeps (Sound s hs V) (handle_error r m)
  handle_error-Sound r m = Sound-Keeps _ (λ c. handle_error-Calm r m)

  pub set_last_error-Sound :
      (m : Text) → Keeps (Sound s hs V) (modify (λ h. record h { last_error = m }))
  set_last_error-Sound m = Sound-Keeps _ (λ c. Calm-last_error m)

  pub set_thread_error-Sound :
      (m : Text) → Keeps (Sound s hs V) (modify_world (λ w. record w { thread_error = m }))
  set_thread_error-Sound m = Sound-Keeps _ (λ c. Calm-thread_error m)

  pub outside-Sound : {A : Type 0} (f : E → E × A) → Keeps (Sound s hs V) (outside f)
  outside-Sound f = Sound-Keeps _ (λ c. Calm-env f)

  pub run_uncaught-Sound :
      {A : Type 0} (body : E → Session E A) → Keeps (Sound s hs V) (run_uncaught body)
  run_uncaught-Sound body = Sound-Keeps _ (λ c. run_uncaught-Calm body)

  pub push_log-Sound :
      (line : Text)
      → Keeps (Sound s hs V) (modify (λ h. record h { startup_logs = h.startup_logs ++ line ∷ [] }))
  push_log-Sound line = Sound-modify _ (λ h. refl)

  pub ensure_legacy-Sound : Keeps (Sound s hs V) ensure_legacy
  ensure_legacy-Sound = Sound-Keeps _ (λ c. ensure_legacy-Calm)

  pub set_legacy_error-Sound : (r : Result) (m : Text) → Keeps (Sound s hs V) (set_legacy_error r m)
  set_legacy_error-Sound r m = Sound-Keeps _ (λ c. set_legacy_error-Calm r m)

  pub run_session-Sound :
      {A : Type 0} (body : E → Session E A) → Keeps (Sound s hs V) (run_session body)
  run_session-Sound body = Sound-Keeps _ (λ c. run_session-Calm body)

  pub run_caught-Sound : (body : E → Session E Result) → Keeps (Sound s hs V) (run_caught body)
  run_caught-Sound body = Sound-Keeps _ (λ c. run_caught-Calm body)

  pub unsupported-Sound : (operation : Text) → Keeps (Sound s hs V) (unsupported operation)
  unfolding unsupported
  unsupported-Sound operation = handle_error-Sound _ _

  pub check_beta-Sound : Keeps (Sound s hs V) check_beta_runtime_access
  unfolding check_beta_runtime_access
  check_beta-Sound = Keeps-bind _ _ (Keeps-gets _) λ backend.
      Keeps-bind _ _ (Keeps-gets _)
        λ provider. Keeps-bind _ _ (Keeps-gets _) λ allowed. by_backend backend provider allowed
    where
      by_provider :
          (provider : Option (Provider E)) (allowed : Bool)
          → Keeps (Sound s hs V) (elim provider [
            | none ↦ pure (plain Result.ok)
            | some p ↦ check_beta_id allowed (normalize p.runtime_id)
          ])
      by_provider none allowed = Keeps-pure _
      by_provider (some p) allowed = Keeps-if _ _ _ (Keeps-pure _) (handle_error-Sound _ _)

      by_backend :
          (backend : Backend) (provider : Option (Provider E)) (allowed : Bool)
          → Keeps (Sound s hs V) (elim backend [
            | Backend.provider ↦ elim provider [
              | none ↦ pure (plain Result.ok)
              | some p ↦ check_beta_id allowed (normalize p.runtime_id)
            ]
            | _ ↦ pure (plain Result.ok)
          ])
      by_backend Backend.provider provider allowed = by_provider provider allowed
      by_backend _ provider allowed = Keeps-pure _

  pub call_legacy-Sound :
      (f : Services E → E → ℕ → E × Reply) → Keeps (Sound s hs V) (call_legacy f)
  call_legacy-Sound f = search (keeps_rules, outside-Sound) depth 10

  call_given-Sound :
      (c : Call) (missing : Reply) (runtime : ℕ) (provider : Option (Provider E))
      → Keeps (Sound s hs V) (call_given c missing runtime provider)
  unfolding call_given
  call_given-Sound c missing runtime none = Keeps-pure _
  call_given-Sound c missing runtime (some p) = Keeps-if _ _ _ (run_uncaught-Sound _) (Keeps-pure _)

  pub call_member-Sound :
      (c : Call) (missing : Reply) → Keeps (Sound s hs V) (call_member c missing)
  unfolding call_member
  call_member-Sound c missing = search (keeps_rules, call_given-Sound) depth 8

  finish_reply-Sound :
      (operation : Text) (error : Option Text) (reply : Reply) (r : Result)
      → Keeps (Sound s hs V) (finish_reply operation error reply r)
  unfolding finish_reply
  finish_reply-Sound operation error reply Result.not_supported =
      Keeps-if _ _ _ (unsupported-Sound _)
        (Keeps-bind _ _ (set_provider_error-Sound _ _) (λ _. Keeps-pure _))
  finish_reply-Sound operation error reply _ =
      Keeps-bind _ _ (set_provider_error-Sound _ _) (λ _. Keeps-pure _)

  finish_provider-Sound :
      (operation : Text) (reply : Reply) → Keeps (Sound s hs V) (finish_provider operation reply)
  unfolding finish_provider
  finish_provider-Sound operation reply = search (keeps_rules, finish_reply-Sound) depth 12

  -- Route keeps what the provider's side keeps.
  pub route_body-Sound :
      (operation : Text) (f : Services E → E → ℕ → E × Reply) (provider_call : Action E Reply)
      → Keeps (Sound s hs V) provider_call
      → Keeps (Sound s hs V) (route_body operation f provider_call)
  unfolding route_body
  route_body-Sound operation f provider_call k = Keeps-bind _ _ (Keeps-gets _) (elim [
    | Backend.provider ↦ Keeps-bind _ _ k (λ reply. finish_provider-Sound operation reply)
    | _ ↦
        Keeps-bind _ _ ensure_legacy-Sound
          (λ ready. Keeps-if _ _ _ (call_legacy-Sound f) (Keeps-pure _))
  ])

  pub ruleset sound_rules = (
    keeps_rules, set_provider_error-Sound, handle_error-Sound, set_last_error-Sound,
    set_thread_error-Sound, outside-Sound, run_uncaught-Sound, push_log-Sound, ensure_legacy-Sound,
    set_legacy_error-Sound, run_session-Sound, run_caught-Sound, unsupported-Sound,
    check_beta-Sound, call_legacy-Sound, call_member-Sound, route_body-Sound,
  )
