-- ===== src/Dispatch/Route.antt =====
-- ValidateHandleLocked and Route of abi/src/engine_api_dispatch.cpp.
use aether_kiri.Prelude.{
  ℕ, Option, none, some, [], Text, text, ◌==◌, if◌then◌else◌, is_empty, option_or, lookup, insert,
  nat_key,
}
use aether_kiri.Engine.Calls.{
  Result, invalid_argument, not_supported, Reply, plain, Call, member_of,
}
use aether_kiri.Engine.Provider.{Provider, provider_has}
use aether_kiri.Engine.Services.{Services}
use aether_kiri.Dispatch.State.{
  Backend, World, Local, Action, pure, ◌>>=◌, ◌>>◌, gets, asks, outside, deref, on_ok,
}
use aether_kiri.Dispatch.Errors.{set_provider_error, ensure_legacy, unsupported, provider_error}
use aether_kiri.Dispatch.Callbacks.{run_uncaught}

-- A function of the API: `none` is a fault, as for `Action`.
abbrev pub Api : Type 0 → Type 0
Api E = World E → Option (Reply × World E)

module _ {E : Type 0} where
  -- ThreadError outside a handle
  abbrev pub reject : Result → Text → Api E
  reject r message w = some (plain r, record w { thread_error = message })

  abbrev pub accept : Reply → Api E
  accept r w = some (r, record w { thread_error = [] })

  abbrev pub store : ℕ → Option (Reply × Local E) → Option (Reply × World E)
  store address none = none
  store address (some (r, l)) =
      some (r, record l.world { handles = insert address l.handle l.world.handles })

  -- Validates the handle, takes its mutex and runs the body.
  unfoldable pub locked : ℕ → Action E Reply → Api E
  locked address body w =
      if address == 0
      then reject invalid_argument (text "engine handle is null") w
      else elim (lookup address w.handles) [
        | none ↦ reject invalid_argument (text "engine handle is invalid or already destroyed") w
        | some h ↦ store address (body (record { world = w; handle = h }))
      ]

  -- LegacyServices()->f(handle->legacy, ...)
  abbrev pub call_legacy : (Services E → E → ℕ → E × Reply) → Action E Reply
  call_legacy f = do
    services ← deref (← asks (λ w. w.services))
    legacy ← gets (λ h. h.legacy)
    outside (λ env. f services env legacy)

  -- What Route does with a provider's NOT_SUPPORTED and with every other result.
  unfoldable pub finish_reply : Text → Option Text → Reply → Result → Action E Reply
  finish_reply operation error reply Result.not_supported =
      if is_empty (option_or error [])
      then unsupported operation
      else do set_provider_error not_supported operation; pure reply
  finish_reply operation error reply other = do set_provider_error other operation; pure reply

  unfoldable pub finish_provider : Text → Reply → Action E Reply
  unfolding finish_reply
  finish_provider operation reply = do
    error ← provider_error
    finish_reply operation error reply reply.result

  unfoldable pub route_body :
      Text → (Services E → E → ℕ → E × Reply) → Action E Reply → Action E Reply
  unfolding finish_provider
  route_body operation legacy_call provider_call = do
    backend ← gets (λ h. h.backend)
    elim backend [
      | Backend.provider ↦ (do reply ← provider_call; finish_provider operation reply)
      | _ ↦ (do ready ← ensure_legacy; on_ok ready.result (call_legacy legacy_call))
    ]

  unfoldable pub route : ℕ → Text → (Services E → E → ℕ → E × Reply) → Action E Reply → Api E
  unfolding locked route_body
  route address operation legacy_call provider_call =
      locked address (route_body operation legacy_call provider_call)

  -- PROVIDER_HAS(provider, member) ? provider->member(runtime, ...) : missing
  unfoldable pub call_given : Call → Reply → ℕ → Option (Provider E) → Action E Reply
  unfolding run_uncaught
  call_given c missing runtime none = pure missing
  call_given c missing runtime (some p) =
      if provider_has (some p) (member_of c)
      then run_uncaught (λ env. p.invoke c env runtime)
      else pure missing

  unfoldable pub call_member : Call → Reply → Action E Reply
  unfolding call_given
  call_member c missing = do
    provider ← gets (λ h. h.provider)
    runtime ← gets (λ h. h.runtime)
    call_given c missing runtime provider

  -- The calls that go unchanged to either side.
  unfoldable pub forward : ℕ → Text → Call → Api E
  unfolding route call_member
  forward address operation c =
      route address operation (λ services. services.invoke c) (call_member c (plain not_supported))
