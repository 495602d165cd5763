-- ===== src/Tests/Hosts.antt =====
-- Runs of whole hosts.
use aether_kiri.Prelude.{
  ℕ, ◌≡◌, refl, Bool, true, false, none, some, List, [], ◌∷◌, text, arith, lookup, nat_key, subst,
  ◌==◌, if◌then◌else◌, Text, Option,
}
use mathlib.Core.Option.{some-injective}
use aether_kiri.Engine.Calls.{Result, ok, plain, StartupState, member_end}
use aether_kiri.Engine.Provider.{Session, provider_has}
use aether_kiri.Dispatch.State.{Thread, Handle, World, Local, ◌>>◌, run}
use aether_kiri.Dispatch.Callbacks.{interpret, run_caught, host_platform_request, push_request}
use aether_kiri.Dispatch.Keeps.{Holds}
use aether_kiri.Dispatch.Frame.{core, Calm, IsBounded}
use aether_kiri.Dispatch.Frame.Sessions.{interpret-Calm}
use aether_kiri.Dispatch.Reopen.{steps, steps-open_game}
use aether_kiri.Dispatch.Open.{
  open_game, open_provider, thread_step, start_provider, attach_provider_game_log_file_sink,
  attach_first, log_candidate, open_in_thread, run_provider_open, thread_step_from,
}
use aether_kiri.Dispatch.Lifecycle.{engine_create, engine_destroy}
use aether_kiri.Dispatch.Creation.{Creates, engine_create-Creates}
use aether_kiri.Engine.Services.{Services}
use aether_kiri.Dispatch.Resume.{resume_and_tick, pending, resume-ticks}
use aether_kiri.Dispatch.Api.{ApiCall, calls, call}
use aether_kiri.Dispatch.Startup.{
  Returns, IsPublished, open_provider-state, IsDone, thread_step-IsDone,
}
use aether_kiri.Dispatch.Release.{IsWithout, engine_destroy-IsWithout}
use aether_kiri.Dispatch.Gone.{Rejects, engine_destroy-Rejects}
use aether_kiri.Dispatch.Invariant.Api.{IsLive, Intact, Reaches}
use aether_kiri.Dispatch.Invariant.Every.{EndsIntact, calls-Intact}
use aether_kiri.Tests.Sample.{
  plain_provider, better_provider, fresh, description, handle_with, inside, two_requests,
}

fresh-Intact : Intact fresh
unfolding lookup
fresh-Intact = record { no_null = refl; live = λ a h e. cc }

-- Two providers are registered, a game is opened and closed.
abbrev session_calls : List (ApiCall ℕ)
session_calls =
    ApiCall.register_runtime_provider (some plain_provider)
    ∷ ApiCall.register_runtime_provider (some better_provider)
    ∷ ApiCall.create (some description) true
    ∷ ApiCall.open_game 16 (some (text "/game")) none
    ∷ ApiCall.poll_platform_request 16 64 64 true
    ∷ ApiCall.destroy 16
    ∷ []

calls-Intact_example : EndsIntact (calls session_calls fresh)
calls-Intact_example = calls-Intact session_calls fresh fresh-Intact

two-IsBounded : IsBounded none (handle_with Thread.absent two_requests)
two-IsBounded = record { requests = omega arith; no_legacy = λ e. refl; no_media = λ e. refl }

two_Calm : Calm (core (inside Thread.absent two_requests)) (inside Thread.absent two_requests)
two_Calm = record { same = refl; bounded = two-IsBounded }

abbrev one_session : Session ℕ Result
one_session = Session.request (some (text "menu")) none (Session.finish 1 (some ok))

interpret-Calm_example :
    Holds
      (Calm (core (inside Thread.absent two_requests)))
      (interpret one_session (inside Thread.absent two_requests))
interpret-Calm_example = interpret-Calm one_session (inside Thread.absent two_requests) two_Calm

open_provider-state_example :
    Returns
      (λ reply l'. IsPublished reply.result l'.handle.startup_state)
      (run (open_provider (text "/game") none) (inside Thread.absent []))
open_provider-state_example = open_provider-state (text "/game") none (inside Thread.absent [])

-- A handle whose startup thread has started.
abbrev starting : Local ℕ
starting = inside (Thread.spawned (text "/game") none) []

-- What the provider does when it opens a game.
abbrev opening : ℕ → ℕ → Text → Option Text → Session ℕ Result
opening = λ env runtime path script.
    Session.request (some (text "dialog")) (some (text "hello")) (Session.finish env (some ok))

-- The state that its open leads to.
abbrev opened_game : Local ℕ
opened_game = inside (Thread.spawned (text "/game") none) ((text "dialog", text "hello") ∷ [])

opening_runs :
    run (run_caught (λ env. opening env 7 (text "/game") none)) starting ≡ some (ok, opened_game)
unfolding run run_caught interpret host_platform_request push_request text
opening_runs = refl

thread_step-IsDone_example :
    (l2 : Local ℕ) × (run (thread_step >> thread_step) starting ≡ some (tt, l2))
    × IsDone ok starting opened_game l2
thread_step-IsDone_example =
    thread_step-IsDone plain_provider opening (text "/game") none ok starting opened_game refl refl
      refl opening_runs

abbrev one_live : World ℕ
one_live = record fresh { handles = (16, handle_with Thread.absent two_requests) ∷ [] }

two-IsLive : IsLive none (handle_with Thread.absent two_requests)
two-IsLive = record {
  bounded = two-IsBounded;
  alive = record { given = λ e. refl; created = λ e. omega arith };
}

found-IsLive :
    (b : Bool) (h : Handle ℕ)
    → (if b then some (handle_with Thread.absent two_requests) else none) ≡ some h
    → IsLive none h
found-IsLive true h e = subst (IsLive none) (some-injective _ h e) two-IsLive
found-IsLive false h e = cc

only-IsLive : (a : ℕ) (h : Handle ℕ) → lookup a one_live.handles ≡ some h → IsLive none h
unfolding lookup
only-IsLive a h e = found-IsLive (16 == a) h e

one_live-Intact : Intact one_live
unfolding lookup
one_live-Intact = record { no_null = refl; live = λ a h e. only-IsLive a h e }

engine_destroy-IsWithout_example : Reaches (IsWithout 16 one_live) (engine_destroy 16 one_live)
engine_destroy-IsWithout_example = engine_destroy-IsWithout 16 one_live one_live-Intact

engine_destroy-Rejects_example :
    Reaches (λ w'. Rejects ⊥ w' (call (ApiCall.tick 16 5) w')) (engine_destroy 16 one_live)
engine_destroy-Rejects_example =
    engine_destroy-Rejects 16 (ApiCall.tick 16 5) one_live (omega arith) refl one_live-Intact

-- A services table whose audio session is never active.
abbrev quiet_services : Services ℕ
quiet_services = record {
  address = 8;
  struct_size = 376;
  create = none;
  destroy = λ env h. (env, ok);
  open_game = λ env h path script. (env, ok);
  open_game_async = λ env h path script. (env, ok);
  get_startup_state = λ env h. (env, ok, StartupState.idle);
  drain_startup_logs = λ env h size. (env, plain ok);
  tick = λ env h delta_ms. (env, ok);
  invoke = λ c env h. (env, plain ok);
  media_open = λ env h path. (env, ok, 0);
  media_destroy = λ env m. (env, ok);
  media = λ c env m. (env, plain ok);
  media_set_volume = none;
  diagnostics = λ env h which arguments. (env, plain ok);
  get_last_error = none;
  activate_audio_session = some (λ env. (env, false));
  drain_texture_recycle = some (λ env. env);
  register_private_runtimes = none;
}

abbrev quiet : Local ℕ
quiet = record {
  world = record fresh { services = some quiet_services };
  handle = handle_with Thread.absent [];
}

resume-ticks_example :
    run (resume_and_tick (16 ∷ 17 ∷ [])) quiet
    ≡ some (plain ok ∷ plain ok ∷ plain ok ∷ [], pending true quiet)
unfolding provider_has member_end
resume-ticks_example =
    resume-ticks quiet_services (λ env. (env, false)) (16 ∷ 17 ∷ []) quiet (λ env. refl) refl refl
      refl

engine_create-Creates_example : Creates [] (engine_create (some description) true fresh)
engine_create-Creates_example = engine_create-Creates (some description) true fresh

-- The state when engine_open_game_async has returned.
abbrev started : Local ℕ
started = record starting {
  handle = record starting.handle { startup_state = StartupState.running };
}

starts :
    run (start_provider (text "/game") none) (inside Thread.absent []) ≡ some (plain ok, started)
unfolding run start_provider attach_provider_game_log_file_sink attach_first log_candidate text
starts = refl

-- The state when its thread has opened the game.
abbrev stepped : Local ℕ
stepped = record opened_game {
  handle = record opened_game.handle {
    startup_state = StartupState.running;
    startup_thread = Thread.opened ok;
  };
}

steps_once : run (steps 1) started ≡ some (tt, stepped)
unfolding run steps thread_step thread_step_from open_in_thread run_provider_open run_caught
    interpret host_platform_request push_request text
steps_once = refl

steps-open_game_example :
    (message : Text) × (run (open_game (text "/other") none) stepped
      ≡ some (
        plain Result.invalid_state,
        record stepped { world = record fresh { thread_error = message } },
      ))
steps-open_game_example =
    steps-open_game 1 (text "/game") (text "/other") none none (inside Thread.absent []) started
      stepped starts steps_once
