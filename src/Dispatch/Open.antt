-- ===== src/Dispatch/Open.antt =====
-- Opening a game (abi/src/engine_api_dispatch.cpp): engine_open_game, engine_open_game_async, the
-- body of the startup thread, and engine_get_startup_state. The text translation is that of a build
-- without AETHERKIRI_INTERNAL_TEXT_TRANSLATION, where preparing and starting it do nothing.
use aether_kiri.Prelude.{
  ℕ, Bool, not, ◌&&◌, ◌||◌, Option, none, some, List, [], ◌∷◌, ◌++◌, Text, text, ◌==◌,
  if◌then◌else◌, is_empty, option_or,
}
use aether_kiri.Engine.Calls.{
  Result, ok, invalid_argument, invalid_state, internal_error, is_ok, Reply, plain, StartupState,
}
use aether_kiri.Engine.Services.{Services}
use aether_kiri.Dispatch.State.{
  Backend, Thread, joinable, Action, pure, ◌>>=◌, ◌>>◌, gets, asks, modify, outside, deref, on_ok,
}
use aether_kiri.Dispatch.Errors.{
  set_provider_error, ensure_legacy, check_beta_runtime_access, set_thread_error, thread_error,
  handle_error,
}
use aether_kiri.Dispatch.Callbacks.{run_caught}
use aether_kiri.Dispatch.Select.{select_backend}
use aether_kiri.Dispatch.Route.{Api, reject, locked, call_legacy}

-- The root without its trailing separators.
unfoldable pub strip_separators : Text → Text
strip_separators [] = []
strip_separators (c ∷ s) =
    let rest = strip_separators s in
    if is_empty rest && (c == b'/' || c == b'\\') then [] else c ∷ rest

unfoldable pub log_candidate : Text → List Text
unfolding strip_separators
log_candidate root =
    let stripped = strip_separators root in
    if is_empty stripped then [] else (stripped ++ text "/aetherkiri-engine.log") ∷ []

-- startup_state as a number, as the output pointer receives it
abbrev pub state_value : StartupState → ℕ
state_value StartupState.idle = 0
state_value StartupState.running = 1
state_value StartupState.succeeded = 2
state_value StartupState.failed = 3

abbrev pub opened_state : Result → StartupState
opened_state r = if is_ok r then StartupState.succeeded else StartupState.failed

abbrev pub opened_line : Result → Text
opened_line r =
    if is_ok r
    then text "runtime provider open_game => OK"
    else text "runtime provider open_game => FAILED"

module _ {E : Type 0} where
  -- The first candidate that can be opened is attached.
  unfoldable pub attach_first : List Text → Action E (Unit {0})
  attach_first [] = pure tt
  attach_first (candidate ∷ rest) = do
    os ← asks (λ w. w.os)
    attached ← outside (λ env. os.attach_log env candidate)
    if attached then pure tt else attach_first rest

  unfoldable pub attach_provider_game_log_file_sink : Text → Action E (Unit {0})
  unfolding attach_first log_candidate
  attach_provider_game_log_file_sink root = do
    writable ← gets (λ h. h.writable_path)
    attach_first (log_candidate root ++ log_candidate writable)

  unfoldable pub run_provider_open : Text → Option Text → Action E Result
  unfolding run_caught
  run_provider_open path script = do
    provider ← deref (← gets (λ h. h.provider))
    open_game ← deref provider.open_game
    runtime ← gets (λ h. h.runtime)
    run_caught (λ env. open_game env runtime path script)

  -- What follows open_game, in the caller or in the startup thread.
  unfoldable pub publish : Result → Text → Action E (Unit {0})
  publish result fallback = do
    modify (λ h. record h {
      startup_state = opened_state result;
      startup_logs = h.startup_logs ++ opened_line result ∷ [];
    })
    set_provider_error result fallback

  unfoldable pub open_legacy : (Services E → E → ℕ → E × Result) → Action E Reply
  open_legacy f = do
    ready ← ensure_legacy
    on_ok ready.result (
        call_legacy
          (λ services env legacy. let (env', r) = f services env legacy in (env', plain r)))

  unfoldable pub open_provider : Text → Option Text → Action E Reply
  unfolding publish run_provider_open attach_provider_game_log_file_sink
  open_provider path script = do
    modify (λ h. record h { startup_state = StartupState.running })
    attach_provider_game_log_file_sink path
    result ← run_provider_open path script
    publish result (text "runtime provider failed to open game")
    pure (plain result)

  unfoldable pub open_game : Text → Option Text → Action E Reply
  unfolding open_legacy open_provider
  open_game path script = do
    thread ← gets (λ h. h.startup_thread)
    if joinable thread
        then thread_error invalid_state
            (text "an asynchronous startup task must finish before reopening")
        else do
          selected ← select_backend path
          on_ok selected.result do
            access ← check_beta_runtime_access
            on_ok access.result do
              backend ← gets (λ h. h.backend)
              elim backend [
                | Backend.legacy ↦
                    open_legacy (λ services env legacy. services.open_game env legacy path script)
                | _ ↦ open_provider path script
              ]

  unfoldable pub engine_open_game : ℕ → Option Text → Option Text → Api E
  unfolding locked open_game
  engine_open_game address path script =
      let root = option_or path [] in
      if is_empty root
      then reject invalid_argument (text "game_root_path_utf8 is null or empty")
      else locked address (open_game root script)

  -- After the attempt to start the thread, which may throw.
  abbrev pub thread_started : Text → Option Text → Option Text → Action E Reply
  thread_started path script (some what) = do
    modify (λ h. record h { startup_state = StartupState.failed })
    handle_error internal_error (text "failed to start runtime provider: " ++ what)
  thread_started path script none = do
    let name = option_or script []
    modify (λ h. record h {
      startup_thread = Thread.spawned path (if is_empty name then none else some name);
    })
    set_thread_error []
    pure (plain ok)

  unfoldable pub start_provider : Text → Option Text → Action E Reply
  unfolding attach_provider_game_log_file_sink
  start_provider path script = do
    modify (λ h. record h { startup_state = StartupState.running })
    attach_provider_game_log_file_sink path
    os ← asks (λ w. w.os)
    failure ← outside (λ env. os.start_thread env)
    thread_started path script failure

  -- The asynchronous open repeats the error of the selection, or a text of its own.
  unfoldable pub selection_error : Result → Action E Reply
  selection_error result = do
    error ← gets (λ h. h.last_error)
    if is_empty error
        then handle_error result (text "failed to select a runtime backend")
        else thread_error result error

  unfoldable pub open_game_async : Text → Option Text → Action E Reply
  unfolding open_legacy start_provider selection_error
  open_game_async path script = do
    thread ← gets (λ h. h.startup_thread)
    if joinable thread
        then handle_error invalid_state (text "an asynchronous startup task already exists")
        else do
          selected ← select_backend path
          if not (is_ok selected.result) then selection_error selected.result else do
            access ← check_beta_runtime_access
            on_ok access.result do
              backend ← gets (λ h. h.backend)
              elim backend [
                | Backend.legacy ↦
                    open_legacy
                      (λ services env legacy. services.open_game_async env legacy path script)
                | _ ↦ start_provider path script
              ]

  unfoldable pub engine_open_game_async : ℕ → Option Text → Option Text → Api E
  unfolding locked open_game_async
  engine_open_game_async address path script =
      let root = option_or path [] in
      if is_empty root
      then reject invalid_argument (text "game_root_path_utf8 is null or empty")
      else locked address (open_game_async root script)

  -- The thread has an error text of its own, which nobody reads: the caller's is restored.
  unfoldable pub publish_in_thread : Result → Action E (Unit {0})
  unfolding publish
  publish_in_thread result = do
    error ← asks (λ w. w.thread_error)
    publish result (text "runtime provider failed to open game asynchronously")
    set_thread_error error

  -- The provider's callbacks set the error text of the thread, too.
  unfoldable pub open_in_thread : Text → Option Text → Action E Result
  unfolding run_provider_open
  open_in_thread path script = do
    error ← asks (λ w. w.thread_error)
    result ← run_provider_open path script
    set_thread_error error
    pure result

  unfoldable pub thread_step_from : Thread → Action E (Unit {0})
  unfolding open_in_thread publish_in_thread
  thread_step_from Thread.absent = pure tt
  thread_step_from (Thread.spawned path script) = do
    result ← open_in_thread path script
    modify (λ h. record h { startup_thread = Thread.opened result })
  thread_step_from (Thread.opened result) = do
    publish_in_thread result
    modify (λ h. record h { startup_thread = Thread.finished })
  thread_step_from Thread.finished = pure tt

  -- One step of the startup thread: the provider's open_game, or the publication of its result.
  unfoldable pub thread_step : Action E (Unit {0})
  unfolding thread_step_from
  thread_step = do thread ← gets (λ h. h.startup_thread); thread_step_from thread

  unfoldable pub startup_thread_step : ℕ → Api E
  unfolding locked thread_step
  startup_thread_step address = locked address do thread_step; pure (plain ok)

  unfoldable pub startup_state_body : Action E Reply
  startup_state_body = do
    backend ← gets (λ h. h.backend)
    elim backend [
      | Backend.provider ↦ (do
        state ← gets (λ h. h.startup_state)
        set_thread_error []
        pure (record { result = ok; out = state_value state ∷ [] }))
      | _ ↦ call_legacy (λ services env legacy.
          let (env', r, state) = services.get_startup_state env legacy in
          (env', record { result = r; out = state_value state ∷ [] }))
    ]

  unfoldable pub engine_get_startup_state : ℕ → Bool → Api E
  unfolding locked startup_state_body
  engine_get_startup_state address state_given =
      if not state_given
      then reject invalid_argument (text "out_state is null")
      else locked address startup_state_body
