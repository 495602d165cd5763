-- ===== src/Dispatch/Callbacks.antt =====
-- The host callbacks of abi/src/engine_api_dispatch.cpp, and the run of a provider call, which makes
-- them. `host.user_data` is always the handle, so it is never null here.
use aether_kiri.Prelude.{
  ℕ, Bool, false, not, ◌||◌, Option, none, some, List, [], ◌∷◌, ◌++◌, Text, text, ltb, leb, ◌==◌,
  if◌then◌else◌, length, tail, is_empty, option_or,
}
use aether_kiri.Engine.Calls.{
  Result, ok, invalid_argument, not_supported, internal_error, Reply, plain, MediaCall,
}
use aether_kiri.Engine.Provider.{Session, MediaRequest}
use aether_kiri.Engine.Services.{Services, media_set_volume_end}
use aether_kiri.Dispatch.State.{
  Handle, Action, pure, ◌>>=◌, ◌>>◌, gets, asks, modify, outside, deref, on_ok,
}
use aether_kiri.Dispatch.Errors.{set_legacy_error, ensure_legacy, thread_error}

abbrev level_name : ℕ → Text
level_name level =
    if level == 4
    then text "error "
    else if level == 3
    then text "warning "
    else if level == 1
    then text "debug "
    else if level == 0
    then text "trace "
    else text "info "

unfoldable pub log_line : ℕ → Option Text → Option Text → Text
log_line level subsystem message =
    let name = option_or subsystem [] in
    level_name level
    ++ ((if is_empty name then [] else text "[" ++ (name ++ text "] ")) ++ option_or message [])

-- The set of media handles that the handle's provider owns.
unfoldable pub contains : ℕ → List ℕ → Bool
contains m [] = false
contains m (x ∷ xs) = x == m || contains m xs

unfoldable pub erase : ℕ → List ℕ → List ℕ
erase m [] = []
erase m (x ∷ xs) = let rest = erase m xs in if x == m then rest else x ∷ rest

unfoldable pub include : ℕ → List ℕ → List ℕ
unfolding contains
include m xs = if contains m xs then xs else m ∷ xs

-- A bounded queue: the oldest request goes when 256 wait.
unfoldable pub push_request : Text × Text → List (Text × Text) → List (Text × Text)
push_request r queue = (if leb 256 (length queue) then tail queue else queue) ++ r ∷ []

abbrev media_fallback : MediaCall → Text
media_fallback MediaCall.play = text "runtime media host failed to play media"
media_fallback MediaCall.pause = text "runtime media host failed to pause media"
media_fallback (MediaCall.seek position) = text "runtime media host failed to seek media"
media_fallback (MediaCall.set_rate rate) = text "runtime media host failed to set playback rate"
media_fallback (MediaCall.set_volume volume) = text "runtime media host failed to set volume"
media_fallback MediaCall.get_state = text "runtime media host failed to read media state"
media_fallback (MediaCall.read_frame_rgba size) =
    text "runtime media host failed to read video frame"
media_fallback _ = text ""

module _ {E : Type 0} where
  unfoldable pub host_log : ℕ → Option Text → Option Text → Handle E → Handle E
  host_log level subsystem message h = record h {
    startup_logs = h.startup_logs ++ log_line level subsystem message ∷ [];
  }

  unfoldable pub host_platform_request : Option Text → Option Text → Handle E → Handle E
  host_platform_request operation argument h =
      let name = option_or operation [] in
      if is_empty name then h else record h {
        platform_requests = push_request (name, option_or argument []) h.platform_requests;
      }

  -- services->media_set_volume, where the table has it
  abbrev pub set_volume : Services E → ℕ → ℕ → Action E Reply
  set_volume services media volume =
      if ltb services.struct_size media_set_volume_end
      then pure (plain not_supported)
      else elim services.media_set_volume [
        | none ↦ pure (plain not_supported)
        | some f ↦ outside (λ env. f env media volume)
      ]

  -- The call of the services table that a media callback makes.
  unfoldable pub media_call : MediaCall → ℕ → Action E Reply
  media_call (MediaCall.set_volume volume) media = do
    services ← deref (← asks (λ w. w.services))
    set_volume services media volume
  media_call c media = do
    services ← deref (← asks (λ w. w.services))
    outside (λ env. services.media c env media)

  unfoldable pub host_media_open : Option Text → Bool → Action E Reply
  host_media_open path out_given =
      let name = option_or path [] in
      if is_empty name || not out_given then pure (plain invalid_argument) else do
        ready ← ensure_legacy
        on_ok ready.result do
          services ← deref (← asks (λ w. w.services))
          legacy ← gets (λ h. h.legacy)
          (result, media) ←
              outside
                (λ env. let (env', r, m) = services.media_open env legacy name in (env', (r, m)))
          set_legacy_error result (text "runtime media host failed to open media")
          on_ok result (
              if media == 0
              then thread_error internal_error (text "runtime media host returned an empty handle")
              else do
                modify (λ h. record h {
                  provider_media_handles = include media h.provider_media_handles;
                })
                pure (record { result = ok; out = media ∷ [] }))

  unfoldable pub host_media_destroy : ℕ → Action E Reply
  host_media_destroy media = do
    owned ← gets (λ h. contains media h.provider_media_handles)
    if media == 0 then pure (plain ok) else if not owned then pure (plain invalid_argument) else do
      modify (λ h. record h { provider_media_handles = erase media h.provider_media_handles })
      services ← deref (← asks (λ w. w.services))
      result ← outside (λ env. services.media_destroy env media)
      set_legacy_error result (text "runtime media host failed to close media")
      pure (plain result)

  -- HostMediaCall with its callers
  unfoldable pub host_media_call : ℕ → MediaCall → Action E Reply
  unfolding media_call
  host_media_call media c = do
    owned ← gets (λ h. contains media h.provider_media_handles)
    if media == 0 || not owned then pure (plain invalid_argument) else do
      reply ← media_call c media
      set_legacy_error reply.result (media_fallback c)
      pure reply

  unfoldable pub host_media : MediaRequest → Action E Reply
  host_media (MediaRequest.open_media path out_given) = host_media_open path out_given
  host_media (MediaRequest.destroy media) = host_media_destroy media
  host_media (MediaRequest.call media c) = host_media_call media c
  host_media (MediaRequest.get_state media out_given) =
      if out_given then host_media_call media MediaCall.get_state else pure (plain invalid_argument)
  host_media (MediaRequest.read_frame media pixels_given size out_given) =
      if not pixels_given || not out_given
      then pure (plain invalid_argument)
      else host_media_call media (MediaCall.read_frame_rgba size)

  -- The callbacks of one provider call in order; the result is `none` if it throws.
  unfoldable pub interpret : {A : Type 0} → Session E A → Action E (Option A)
  interpret (Session.finish env result) l =
      some (result, record l { world = record l.world { env = env } })
  interpret (Session.log level subsystem message rest) l =
      interpret rest (record l { handle = host_log level subsystem message l.handle })
  interpret (Session.request operation argument rest) l =
      interpret rest (record l { handle = host_platform_request operation argument l.handle })
  interpret (Session.media env r rest) l =
      elim (host_media r (record l { world = record l.world { env = env } })) [
        | none ↦ none
        | some (reply, l') ↦ interpret (rest l'.world.env reply) l'
      ]

  -- A provider call from the present outside state.
  unfoldable pub run_session : {A : Type 0} → (E → Session E A) → Action E (Option A)
  run_session body = do env ← asks (λ w. w.env); interpret (body env)

  -- A provider call with no `catch` around it.
  unfoldable pub run_uncaught : {A : Type 0} → (E → Session E A) → Action E A
  unfolding run_session
  run_uncaught body = do result ← run_session body; deref result

  -- RunProviderOpen, RunProviderTick: an exception becomes INTERNAL_ERROR.
  unfoldable pub run_caught : (E → Session E Result) → Action E Result
  unfolding run_session
  run_caught body = do result ← run_session body; pure (option_or result internal_error)
