-- ===== src/Dispatch/Invariant/Requests.antt =====
-- The invariant through the bodies of the API functions other than opening a game.
use aether_kiri.Prelude.{
  ℕ, ◌+◌, ◌≤◌, ◌≡◌, refl, Bool, true, Option, none, some, List, [], ◌∷◌, Text, arith, text, ltb,
  length, ◌==◌, ◌||◌, subst, inl, inr, Bool-cases,
}
use aether_kiri.Engine.Calls.{Call, Member, MediaCall}
use aether_kiri.Engine.Provider.{Provider}
use aether_kiri.Engine.Services.{Services}
use aether_kiri.Dispatch.State.{
  Backend, Handle, World, Local, pure, modify, modify_world, outside, run,
}
use aether_kiri.Dispatch.Queues.{drain_provider_startup_logs, poll_front, poll_request}
use aether_kiri.Dispatch.Run.{
  activate_provider_audio_session, drain_texture_recycle, run_provider_tick, resume_member,
  tick_pending, tick_provider, pause_provider, resume_provider,
}
use aether_kiri.Dispatch.Options.{
  call_or_unsupported, set_runtime_option, set_engine_option, set_option, resize, set_surface_size,
  submit_response,
}
use aether_kiri.Dispatch.Queries.{
  text_input_from_flags, text_input_provider, memory_stats_provider, diagnostics_body,
}
use aether_kiri.Dispatch.Media.{emplace, open_media, close_media, route_media_body}
use aether_kiri.Dispatch.Keeps.{
  Keeps, Holds, Keeps-pure, Keeps-gets, Keeps-asks, Keeps-deref, Keeps-if, Keeps-bind,
}
use aether_kiri.Dispatch.Frame.Sessions.{media_call-Calm}
use aether_kiri.Dispatch.Invariant.State.{Sound, Sound-Keeps, Sound-modify, Sound-modify_world}
use aether_kiri.Dispatch.Invariant.Rules.{
  sound_rules, set_legacy_error-Sound, ensure_legacy-Sound, handle_error-Sound, outside-Sound,
  call_legacy-Sound, call_member-Sound, set_thread_error-Sound, unsupported-Sound,
}

module _ {E : Type 0} {s : Option (Services E)} {hs : List (ℕ × Handle E)}
    {V : Backend → Option (Provider E) → ℕ → Type 0} where
  activate-Sound : Keeps (Sound s hs V) activate_provider_audio_session
  unfolding activate_provider_audio_session
  activate-Sound =
      Keeps-bind _ _ (Keeps-asks _)
        (elim [ none ↦ Keeps-pure _ | some t ↦ by_member t.activate_audio_session ])
    where
      by_member :
          (o : Option (E → E × Bool))
          → Keeps (Sound s hs V) (elim o [ none ↦ pure true | some f ↦ outside f ])
      by_member none = Keeps-pure _
      by_member (some f) = outside-Sound f

  recycle-Sound : Keeps (Sound s hs V) drain_texture_recycle
  unfolding drain_texture_recycle
  recycle-Sound = Keeps-bind _ _ (Keeps-asks _) (elim [
    | none ↦ Keeps-pure _
    | some t ↦ Keeps-bind _ _ (Keeps-deref _) (λ f. Sound-modify_world _ (λ w. refl) (λ w. refl))
  ])

  run_provider_tick-Sound : (delta_ms : ℕ) → Keeps (Sound s hs V) (run_provider_tick delta_ms)
  unfolding run_provider_tick
  run_provider_tick-Sound delta_ms = search (sound_rules, recycle-Sound) depth 16

  set_pending-Sound :
      (b : Bool) → Keeps (Sound s hs V) (modify (λ h. record h { provider_resume_pending = b }))
  set_pending-Sound b = Sound-modify _ (λ h. refl)

  tick_pending-Sound : (delta_ms : ℕ) → Keeps (Sound s hs V) (tick_pending delta_ms)
  unfolding tick_pending resume_member
  tick_pending-Sound delta_ms =
      search (sound_rules, activate-Sound, set_pending-Sound, run_provider_tick-Sound) depth 16

  pub tick_provider-Sound : (delta_ms : ℕ) → Keeps (Sound s hs V) (tick_provider delta_ms)
  unfolding tick_provider
  tick_provider-Sound delta_ms =
      search (sound_rules, tick_pending-Sound, run_provider_tick-Sound) depth 12

  pub pause_provider-Sound : Keeps (Sound s hs V) pause_provider
  unfolding pause_provider
  pause_provider-Sound = search (sound_rules, set_pending-Sound) depth 12

  pub resume_provider-Sound : Keeps (Sound s hs V) resume_provider
  unfolding resume_provider
  resume_provider-Sound = search (sound_rules, activate-Sound, set_pending-Sound) depth 16

  call_or_unsupported-Sound :
      (c : Call) (m : Member) (operation fallback : Text)
      → Keeps (Sound s hs V) (call_or_unsupported c m operation fallback)
  unfolding call_or_unsupported
  call_or_unsupported-Sound c m operation fallback = search sound_rules depth 16

  set_runtime_option-Sound :
      (requested : Text) → Keeps (Sound s hs V) (set_runtime_option requested)
  unfolding set_runtime_option
  set_runtime_option-Sound requested = Keeps-bind _ _ (Keeps-asks _) λ build.
      Keeps-bind _ _ (Keeps-gets _) (elim [
        | Backend.undecided ↦ Keeps-if _ _ _ (handle_error-Sound _ _) (
            Keeps-bind _ _ (Sound-modify _ (λ h. refl))
              λ _. Keeps-bind _ _ (set_thread_error-Sound _) (λ _. Keeps-pure _))
        | _ ↦ handle_error-Sound _ _
      ])

  set_engine_option-Sound : (key value : Text) → Keeps (Sound s hs V) (set_engine_option key value)
  unfolding set_engine_option
  set_engine_option-Sound key value = Keeps-bind _ _ (Sound-modify _ (λ h. refl)) λ _.
      Keeps-bind _ _ (Keeps-gets _) (elim [
        | Backend.provider ↦
            call_or_unsupported-Sound (Call.set_option key value) _ _
              (text "runtime provider rejected option")
        | _ ↦
            Keeps-bind _ _ ensure_legacy-Sound
              (λ ready. Keeps-if _ _ _ (call_legacy-Sound _) (Keeps-pure _))
      ])

  pub set_option-Sound : (key value : Text) → Keeps (Sound s hs V) (set_option key value)
  unfolding set_option
  set_option-Sound key value =
      Keeps-if _ _ _ (Keeps-bind _ _ (set_thread_error-Sound _) (λ _. Keeps-pure _)) (
        Keeps-if _ _ _
          (Keeps-bind _ _ (Sound-modify _ (λ h. refl))
            λ _. Keeps-bind _ _ (set_thread_error-Sound _) (λ _. Keeps-pure _))
          (Keeps-if _ _ _ (set_runtime_option-Sound _)
            (Keeps-if _ _ _ (handle_error-Sound _ _) (set_engine_option-Sound key value))))

  resize-Sound : (width height : ℕ) → Keeps (Sound s hs V) (resize width height)
  unfolding resize
  resize-Sound width height = Keeps-bind _ _ (Keeps-gets _) (elim [
    | Backend.provider ↦
        call_or_unsupported-Sound (Call.set_surface_size width height) _ _ (text "set_surface_size")
    | _ ↦
        Keeps-bind _ _ ensure_legacy-Sound
          (λ ready. Keeps-if _ _ _ (call_legacy-Sound _) (Keeps-pure _))
  ])

  pub set_surface_size-Sound :
      (width height : ℕ) → Keeps (Sound s hs V) (set_surface_size width height)
  unfolding set_surface_size
  set_surface_size-Sound width height = Keeps-bind _ _ (resize-Sound width height) λ reply.
      Keeps-bind _ _ (Keeps-if _ _ _ (Sound-modify _ (λ h. refl)) (Keeps-pure _))
        (λ _. Keeps-pure _)

  pub submit_response-Sound :
      (operation argument : Text) → Keeps (Sound s hs V) (submit_response operation argument)
  unfolding submit_response
  submit_response-Sound operation argument = Keeps-bind _ _ (Keeps-gets _) λ runtime.
      Keeps-bind _ _ (Keeps-gets _) (elim [
        | Backend.provider ↦ Keeps-if _ _ _ (unsupported-Sound _) (
            call_or_unsupported-Sound (Call.submit_platform_response operation argument) _ _
              (text "runtime rejected platform response"))
        | _ ↦ unsupported-Sound _
      ])

  pub drain_logs-Sound :
      (buffer_given : Bool) (size : ℕ) (written_given : Bool)
      → Keeps (Sound s hs V) (drain_provider_startup_logs buffer_given size written_given)
  unfolding drain_provider_startup_logs
  drain_logs-Sound buffer_given size written_given = Keeps-if _ _ _ (Keeps-pure _) (
      Keeps-bind _ _ (Keeps-gets _)
        λ logs. Keeps-bind _ _ (Sound-modify _ (λ h. refl)) (λ _. Keeps-pure _))

  pub text_input-Sound : Keeps (Sound s hs V) text_input_provider
  unfolding text_input_provider text_input_from_flags
  text_input-Sound = search sound_rules depth 20

  pub memory_stats-Sound : (size : Option ℕ) → Keeps (Sound s hs V) (memory_stats_provider size)
  unfolding memory_stats_provider
  memory_stats-Sound none = Keeps-pure _
  memory_stats-Sound (some size) =
      Keeps-if _ _ _ (Keeps-pure _) (call_member-Sound Call.get_memory_stats _)

  pub diagnostics-Sound :
      (which : ℕ) (arguments : List ℕ) → Keeps (Sound s hs V) (diagnostics_body which arguments)
  unfolding diagnostics_body
  diagnostics-Sound which arguments =
      Keeps-bind _ _ ensure_legacy-Sound
        (λ ready. Keeps-if _ _ _ (call_legacy-Sound _) (Keeps-pure _))

  emplace-Sound : (media owner : ℕ) → Keeps (Sound s hs V) (modify_world (emplace media owner))
  unfolding emplace
  emplace-Sound media owner = Sound-modify_world _ (λ w. ground arith) (λ w. ground arith)

  pub open_media-Sound :
      (address : ℕ) (path : Text) → Keeps (Sound s hs V) (open_media address path)
  unfolding open_media
  open_media-Sound address path = Keeps-bind _ _ ensure_legacy-Sound λ ready.
      Keeps-if _ _ _
        (Keeps-bind _ _ (Keeps-asks _) λ table. Keeps-bind _ _ (Keeps-deref _) λ services.
          Keeps-bind _ _ (Keeps-gets _) λ legacy. Keeps-bind _ _ (outside-Sound _) λ opened.
            Keeps-bind _ _ (set_legacy_error-Sound _ _) λ _.
              Keeps-if _ _ _
                (Keeps-if _ _ _ (handle_error-Sound _ _)
                  (Keeps-bind _ _ (emplace-Sound _ _) (λ _. Keeps-pure _)))
                (Keeps-pure _))
        (Keeps-pure _)

  pub close_media-Sound : (media : ℕ) → Keeps (Sound s hs V) (close_media media)
  unfolding close_media
  close_media-Sound media = Keeps-bind _ _ (Keeps-asks _) λ table.
      Keeps-bind _ _ (Keeps-deref _) λ services. Keeps-bind _ _ (outside-Sound _) λ r.
        Keeps-bind _ _ (Sound-modify_world _ (λ w. refl) (λ w. refl))
          λ _. Keeps-bind _ _ (set_legacy_error-Sound _ _) (λ _. Keeps-pure _)

  pub route_media-Sound :
      (media : ℕ) (operation : Text) (c : MediaCall)
      → Keeps (Sound s hs V) (route_media_body media operation c)
  unfolding route_media_body
  route_media-Sound media operation c =
      Keeps-bind _ _ (Sound-Keeps _ (λ k. media_call-Calm c media))
        λ reply. Keeps-bind _ _ (set_legacy_error-Sound _ _) (λ _. Keeps-pure _)

  Sound-rest :
      (w : World E) (h : Handle E) (r : Text × Text) (rest : List (Text × Text))
      → h.platform_requests ≡ r ∷ rest
      → Sound s hs V (record { world = w; handle = h })
      → Sound s hs V (record { world = w; handle = record h { platform_requests = rest } })
  Sound-rest w h r rest e p = record {
    services = p.services;
    handles = p.handles;
    bounded = record {
      requests =
          let full : length (r ∷ rest) ≤ 256 =
            subst (λ (q : List (Text × Text)). length q ≤ 256) e p.bounded.requests in
          omega arith;
      no_legacy = p.bounded.no_legacy;
      no_media = p.bounded.no_media;
    };
    vital = p.vital;
  }

  Sound-error :
      (l : Local E) (m : Text)
      → Sound s hs V l
      → Sound s hs V (record l { world = record l.world { thread_error = m } })
  Sound-error l m p = record {
    services = p.services;
    handles = p.handles;
    bounded = p.bounded;
    vital = p.vital;
  }

  poll_front-Sound :
      (operation_size argument_size : ℕ) (requests : List (Text × Text)) (l : Local E)
      → l.handle.platform_requests ≡ requests
      → Sound s hs V l
      → Holds (Sound s hs V) (run (poll_front operation_size argument_size requests) l)
  unfolding run poll_front
  poll_front-Sound operation_size argument_size [] l e p = p
  poll_front-Sound operation_size argument_size ((operation, argument) ∷ rest) l e p =
      elim (Bool-cases (operation_size == 0 || argument_size == 0)) [
        | inl c ↦ rw c (Sound-error l _ p)
        | inr c ↦
            elim (Bool-cases (
              ltb operation_size (length operation + 1)
              || ltb argument_size (length argument + 1))) [
                | inl d ↦ rw c (rw d (Sound-error l _ p))
                | inr d ↦ rw c (rw d (Sound-error _ [] (Sound-rest l.world l.handle _ rest e p)))
              ]
      ]

  pub poll_request-Sound :
      (operation_size argument_size : ℕ)
      → Keeps (Sound s hs V) (poll_request operation_size argument_size)
  unfolding poll_request run
  poll_request-Sound operation_size argument_size = record {
    at = λ l p. poll_front-Sound operation_size argument_size l.handle.platform_requests l refl p;
  }
