-- ===== src/Dispatch/Invariant/Bodies.antt =====
-- The invariant through the bodies that open a game, in the caller and in the startup thread.
use aether_kiri.Prelude.{ℕ, refl, Option, none, some, List, [], ◌∷◌, Text}
use aether_kiri.Engine.Calls.{Result}
use aether_kiri.Engine.Provider.{Provider}
use aether_kiri.Engine.Services.{Services}
use aether_kiri.Dispatch.State.{Backend, Thread, Handle}
use aether_kiri.Dispatch.Open.{
  attach_first, attach_provider_game_log_file_sink, run_provider_open, publish, open_legacy,
  open_provider, open_game, start_provider, selection_error, open_game_async, publish_in_thread,
  open_in_thread, thread_started, thread_step_from, thread_step, startup_state_body,
}
use aether_kiri.Dispatch.Keeps.{Keeps, Keeps-pure, Keeps-gets, Keeps-asks, Keeps-if, Keeps-bind}
use aether_kiri.Dispatch.Invariant.State.{IsAlive, Sound, Sound-modify}
use aether_kiri.Dispatch.Invariant.Rules.{
  sound_rules, set_provider_error-Sound, ensure_legacy-Sound, handle_error-Sound, outside-Sound,
  call_legacy-Sound, check_beta-Sound, set_thread_error-Sound,
}
use aether_kiri.Dispatch.Invariant.Create.{select_backend-Alive}

module _ {E : Type 0} {s : Option (Services E)} {hs : List (ℕ × Handle E)}
    {V : Backend → Option (Provider E) → ℕ → Type 0} where
  attach_first-Sound : (cs : List Text) → Keeps (Sound s hs V) (attach_first cs)
  unfolding attach_first
  attach_first-Sound [] = Keeps-pure _
  attach_first-Sound (c ∷ cs) = Keeps-bind _ _ (Keeps-asks _) λ os.
      Keeps-bind _ _ (outside-Sound _)
        λ attached. Keeps-if _ _ _ (Keeps-pure _) (attach_first-Sound cs)

  attach_sink-Sound : (root : Text) → Keeps (Sound s hs V) (attach_provider_game_log_file_sink root)
  unfolding attach_provider_game_log_file_sink
  attach_sink-Sound root = Keeps-bind _ _ (Keeps-gets _) (λ writable. attach_first-Sound _)

  run_provider_open-Sound :
      (path : Text) (script : Option Text) → Keeps (Sound s hs V) (run_provider_open path script)
  unfolding run_provider_open
  run_provider_open-Sound path script = search sound_rules depth 14

  publish-Sound : (r : Result) (fallback : Text) → Keeps (Sound s hs V) (publish r fallback)
  unfolding publish
  publish-Sound r fallback =
      Keeps-bind _ _ (Sound-modify _ (λ h. refl)) (λ _. set_provider_error-Sound _ _)

  open_legacy-Sound : (f : Services E → E → ℕ → E × Result) → Keeps (Sound s hs V) (open_legacy f)
  unfolding open_legacy
  open_legacy-Sound f =
      Keeps-bind _ _ ensure_legacy-Sound
        λ ready. Keeps-if _ _ _ (call_legacy-Sound _) (Keeps-pure _)

  open_provider-Sound :
      (path : Text) (script : Option Text) → Keeps (Sound s hs V) (open_provider path script)
  unfolding open_provider
  open_provider-Sound path script = Keeps-bind _ _ (Sound-modify _ (λ h. refl)) λ _.
      Keeps-bind _ _ (attach_sink-Sound path) λ _.
        Keeps-bind _ _ (run_provider_open-Sound path script)
          λ r. Keeps-bind _ _ (publish-Sound r _) λ _. Keeps-pure _

  thread_started-Sound :
      (path : Text) (script failure : Option Text)
      → Keeps (Sound s hs V) (thread_started path script failure)
  thread_started-Sound path script (some what) =
      Keeps-bind _ _ (Sound-modify _ (λ h. refl)) (λ _. handle_error-Sound _ _)
  thread_started-Sound path script none =
      Keeps-bind _ _ (Sound-modify _ (λ h. refl))
        λ _. Keeps-bind _ _ (set_thread_error-Sound _) (λ _. Keeps-pure _)

  start_provider-Sound :
      (path : Text) (script : Option Text) → Keeps (Sound s hs V) (start_provider path script)
  unfolding start_provider
  start_provider-Sound path script = Keeps-bind _ _ (Sound-modify _ (λ h. refl)) λ _.
      Keeps-bind _ _ (attach_sink-Sound path) λ _.
        Keeps-bind _ _ (Keeps-asks _)
          λ os. Keeps-bind _ _ (outside-Sound _) (thread_started-Sound path script)

  selection_error-Sound : (r : Result) → Keeps (Sound s hs V) (selection_error r)
  unfolding selection_error
  selection_error-Sound r = search sound_rules depth 14

  publish_in_thread-Sound : (r : Result) → Keeps (Sound s hs V) (publish_in_thread r)
  unfolding publish_in_thread
  publish_in_thread-Sound r =
      Keeps-bind _ _ (Keeps-asks _)
        λ error. Keeps-bind _ _ (publish-Sound _ _) (λ _. set_thread_error-Sound _)

  open_in_thread-Sound :
      (path : Text) (script : Option Text) → Keeps (Sound s hs V) (open_in_thread path script)
  unfolding open_in_thread
  open_in_thread-Sound path script = Keeps-bind _ _ (Keeps-asks _) λ error.
      Keeps-bind _ _ (run_provider_open-Sound path script)
        λ r. Keeps-bind _ _ (set_thread_error-Sound _) (λ _. Keeps-pure _)

  thread_step_from-Sound : (t : Thread) → Keeps (Sound s hs V) (thread_step_from t)
  unfolding thread_step_from
  thread_step_from-Sound Thread.absent = Keeps-pure _
  thread_step_from-Sound (Thread.spawned path script) =
      Keeps-bind _ _ (open_in_thread-Sound path script) (λ r. Sound-modify _ (λ h. refl))
  thread_step_from-Sound (Thread.opened r) =
      Keeps-bind _ _ (publish_in_thread-Sound r) (λ _. Sound-modify _ (λ h. refl))
  thread_step_from-Sound Thread.finished = Keeps-pure _

  pub thread_step-Sound : Keeps (Sound s hs V) thread_step
  unfolding thread_step
  thread_step-Sound = Keeps-bind _ _ (Keeps-gets _) thread_step_from-Sound

  pub startup_state-Sound : Keeps (Sound s hs V) startup_state_body
  unfolding startup_state_body
  startup_state-Sound = Keeps-bind _ _ (Keeps-gets _) (elim [
    | Backend.provider ↦
        Keeps-bind _ _ (Keeps-gets _)
          λ state. Keeps-bind _ _ (set_thread_error-Sound _) (λ _. Keeps-pure _)
    | _ ↦ call_legacy-Sound _
  ])

module _ {E : Type 0} {s : Option (Services E)} {hs : List (ℕ × Handle E)} where
  pub open_game-Alive :
      (path : Text) (script : Option Text) → Keeps (Sound s hs IsAlive) (open_game path script)
  unfolding open_game
  open_game-Alive path script = Keeps-bind _ _ (Keeps-gets _) λ thread.
      Keeps-if _ _ _ (Keeps-bind _ _ (set_thread_error-Sound _) (λ _. Keeps-pure _)) (
        Keeps-bind _ _ (select_backend-Alive s hs path) λ selected.
          Keeps-if _ _ _
            (Keeps-bind _ _ check_beta-Sound λ access.
              Keeps-if _ _ _
                (Keeps-bind _ _ (Keeps-gets _) (elim [
                  | Backend.legacy ↦ open_legacy-Sound _
                  | _ ↦ open_provider-Sound path script
                ]))
                (Keeps-pure _))
            (Keeps-pure _))

  pub open_game_async-Alive :
      (path : Text) (script : Option Text)
      → Keeps (Sound s hs IsAlive) (open_game_async path script)
  unfolding open_game_async
  open_game_async-Alive path script = Keeps-bind _ _ (Keeps-gets _) λ thread.
      Keeps-if _ _ _ (handle_error-Sound _ _) (
        Keeps-bind _ _ (select_backend-Alive s hs path) λ selected.
          Keeps-if _ _ _ (selection_error-Sound _) (
            Keeps-bind _ _ check_beta-Sound λ access.
              Keeps-if _ _ _
                (Keeps-bind _ _ (Keeps-gets _) (elim [
                  | Backend.legacy ↦ open_legacy-Sound _
                  | _ ↦ start_provider-Sound path script
                ]))
                (Keeps-pure _)))
