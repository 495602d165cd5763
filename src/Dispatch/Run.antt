-- ===== src/Dispatch/Run.antt =====
-- engine_tick, engine_pause and engine_resume of abi/src/engine_api_dispatch.cpp.
use aether_kiri.Prelude.{ℕ, Bool, true, false, not, none, some, text, if◌then◌else◌}
use aether_kiri.Engine.Calls.{ok, not_supported, Reply, plain, Call, Member}
use aether_kiri.Engine.Provider.{provider_has}
use aether_kiri.Dispatch.State.{
  Action, pure, ◌>>=◌, ◌>>◌, gets, asks, modify, modify_world, outside, deref, on_ok,
}
use aether_kiri.Dispatch.Callbacks.{run_caught}
use aether_kiri.Dispatch.Route.{Api, route, call_member}

module _ {E : Type 0} where
  -- True where no services table, or none with this member, is installed.
  unfoldable pub activate_provider_audio_session : Action E Bool
  activate_provider_audio_session = do
    services ← asks (λ w. w.services)
    elim services [
      | none ↦ pure true
      | some s ↦ elim s.activate_audio_session [ none ↦ pure true | some f ↦ outside f ]
    ]

  abbrev set_resume_pending : Bool → Action E (Unit {0})
  set_resume_pending b = modify (λ h. record h { provider_resume_pending = b })

  unfoldable pub drain_texture_recycle : Action E (Unit {0})
  drain_texture_recycle = do
    services ← asks (λ w. w.services)
    elim services [
      | none ↦ pure tt
      | some s ↦ (do
        f ← deref s.drain_texture_recycle
        modify_world (λ w. record w { env = f w.env }))
    ]

  unfoldable pub run_provider_tick : ℕ → Action E Reply
  unfolding run_caught drain_texture_recycle
  run_provider_tick delta_ms = do
    provider ← deref (← gets (λ h. h.provider))
    tick ← deref provider.tick
    runtime ← gets (λ h. h.runtime)
    result ← run_caught (λ env. tick env runtime delta_ms)
    drain_texture_recycle
    pure (plain result)

  unfoldable pub resume_member : Action E Reply
  unfolding call_member
  resume_member = call_member Call.resume (plain not_supported)

  -- A tick with a resume pending: the provider stays paused until the audio session is active.
  unfoldable pub tick_pending : ℕ → Action E Reply
  unfolding activate_provider_audio_session resume_member run_provider_tick
  tick_pending delta_ms = do
    active ← activate_provider_audio_session
    if not active then pure (plain ok) else do
      resumed ← resume_member
      on_ok resumed.result do set_resume_pending false; run_provider_tick delta_ms

  unfoldable pub tick_provider : ℕ → Action E Reply
  unfolding tick_pending run_provider_tick
  tick_provider delta_ms = do
    pending ← gets (λ h. h.provider_resume_pending)
    if pending then tick_pending delta_ms else run_provider_tick delta_ms

  unfoldable pub engine_tick : ℕ → ℕ → Api E
  unfolding route tick_provider
  engine_tick address delta_ms =
      route address (text "tick")
        (λ services env legacy.
          let (env', r) = services.tick env legacy delta_ms in (env', plain r))
        (tick_provider delta_ms)

  unfoldable pub pause_provider : Action E Reply
  unfolding call_member
  pause_provider = do set_resume_pending false; call_member Call.pause (plain not_supported)

  -- The call names `LegacyServices()->pause` before anything is tested.
  unfoldable pub engine_pause : ℕ → Api E
  unfolding route pause_provider
  engine_pause address w = elim w.services [
    | none ↦ none
    | some s ↦ route address (text "pause") (λ _. s.invoke Call.pause) pause_provider w
  ]

  unfoldable pub resume_provider : Action E Reply
  unfolding activate_provider_audio_session call_member
  resume_provider = do
    provider ← gets (λ h. h.provider)
    if not (provider_has provider Member.resume) then pure (plain not_supported) else do
      active ← activate_provider_audio_session
      if not active then (do set_resume_pending true; pure (plain ok)) else do
        resumed ← call_member Call.resume (plain not_supported)
        on_ok resumed.result do set_resume_pending false; pure (plain ok)

  unfoldable pub engine_resume : ℕ → Api E
  unfolding route resume_provider
  engine_resume address w = elim w.services [
    | none ↦ none
    | some s ↦ route address (text "resume") (λ _. s.invoke Call.resume) resume_provider w
  ]
