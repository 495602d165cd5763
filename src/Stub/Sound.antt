-- ===== src/Stub/Sound.antt =====
-- The invariant of the stub engine (abi/src/engine_api_stub.cpp), and the rules by which its functions
-- keep it and move the sessions.
use aether_kiri.Prelude.{
  ℕ, ◌≤◌, ◌<◌, ◌^◌, ◌≡◌, refl, false, not, ◌||◌, Option, none, some, List, [], Text, arith, ◌==◌,
  if◌then◌else◌, length, lookup, nat_key, Bool-cases, inl, inr,
}
use aether_kiri.Engine.Calls.{Result, Reply}
use aether_kiri.Stub.State.{
  EngineState, is_opened, is_paused, is_destroyed, Engine, new_engine, Stub, Guarded, Body, succeed,
  refuse, in_game, not_destroyed,
}
use aether_kiri.Stub.Life.{startup_value}
use aether_kiri.Stub.Session.{Session, session_of, map_session}

-- 2 for a game that was opened, 0 before.
abbrev pub startup_at : EngineState → ℕ
startup_at EngineState.created = 0
startup_at _ = 2

-- A live engine is not destroyed, its startup state is that of its state, its surface is not empty
-- and its diagnostic queue is within a limit between 64 and 10000.
pub record Sound (e : Engine) : Type 0 where
  pub alive : is_destroyed e.state ≡ false
  pub started : startup_value e.startup_state ≡ startup_at e.state
  pub wide : 0 < e.surface_width
  pub high : 0 < e.surface_height
  pub room : 64 ≤ e.diagnostic_max_events
  pub limit : e.diagnostic_max_events ≤ 10000
  pub queue : length e.diagnostic_events ≤ e.diagnostic_max_events
  pub dropped : e.diagnostic_dropped < 2 ^ 64

pub new_engine-Sound : Sound new_engine
new_engine-Sound = ground arith

-- The engine after a body is sound and its session has moved so.
pub record Moves (f : Session → Session) (e e' : Engine) : Type 0 where
  pub sound : Sound e'
  pub session : session_of e' ≡ f (session_of e)

-- A body returns on a sound engine.
abbrev pub Returns : (Session → Session) → Engine → Option (Reply × Guarded) → Type 0
Returns f e none = ⊥
Returns f e (some (reply, g)) = Moves f e g.engine

pub record Steps (f : Session → Session) (body : Body) : Type 0 where
  pub returns : (g : Guarded) → Sound g.engine → Returns f g.engine (body g)

abbrev pub id_session : Session → Session
id_session x = x

-- A change of the error text is no change.
quiet : (e : Engine) (message : Text) → Sound e → Sound (record e { last_error = message })
quiet e message h = record {
  alive = h.alive;
  started = h.started;
  wide = h.wide;
  high = h.high;
  room = h.room;
  limit = h.limit;
  queue = h.queue;
  dropped = h.dropped;
}

pub succeed-Returns :
    (f : Session → Session) (out : List ℕ) (g : Guarded) (e : Engine)
    → Moves f e g.engine
    → Returns f e (succeed out g)
unfolding succeed
succeed-Returns f out g e m = record { sound = quiet g.engine [] m.sound; session = m.session }

pub refuse-Returns :
    (r : Result) (out : List ℕ) (message : Text) (g : Guarded)
    → Sound g.engine
    → Returns id_session g.engine (refuse r out message g)
unfolding refuse
refuse-Returns r out message g h = record { sound = quiet g.engine message h; session = refl }

pub succeed-Steps : (out : List ℕ) → Steps id_session (succeed out)
succeed-Steps out = record {
  returns = λ g h. succeed-Returns id_session out g g.engine (record { sound = h; session = refl });
}

pub refuse-Steps :
    (r : Result) (out : List ℕ) (message : Text) → Steps id_session (refuse r out message)
refuse-Steps r out message = record { returns = λ g h. refuse-Returns r out message g h }

pub in_game-Steps :
    (out : List ℕ) (message : Text) (body : Body)
    → Steps id_session body
    → Steps id_session (in_game out message body)
unfolding in_game
in_game-Steps out message body b = record {
  returns = λ g h. elim (Bool-cases (not (is_opened g.engine.state || is_paused g.engine.state))) [
    | inl e ↦ rw e (refuse-Returns Result.invalid_state out message g h)
    | inr e ↦ rw e (b.returns g h)
  ];
}

-- A sound engine is not destroyed.
pub not_destroyed-Steps :
    (f : Session → Session) (body : Body) → Steps f body → Steps f (not_destroyed body)
unfolding not_destroyed
not_destroyed-Steps f body b = record { returns = λ g h. rw h.alive (b.returns g h) }

-- All live engines are sound, and the null handle is not live.
pub record SoundStub (s : Stub) : Type 0 where
  pub engines : (k : ℕ) (e : Engine) → lookup k s.engines ≡ some e → Sound e
  pub no_null : lookup 0 s.engines ≡ none

-- The session behind a handle.
abbrev pub found_session : Option Engine → Option Session
found_session none = none
found_session (some e) = some (session_of e)

abbrev pub view : ℕ → Stub → Option Session
view k s = found_session (lookup k s.engines)

-- A function of the API returns, keeps the invariant and moves the sessions so.
pub record Serves (f : ℕ → Option Session → Option Session) (s : Stub) (o : Option (Reply × Stub))
    : Type 0 where
  pub reply : Reply
  pub next : Stub
  pub returns : o ≡ some (reply, next)
  pub sound : SoundStub next
  pub sessions : (k : ℕ) → view k next ≡ f k (view k s)

abbrev pub same : ℕ → Option Session → Option Session
same k x = x

abbrev pub move_at : ℕ → (Session → Session) → ℕ → Option Session → Option Session
move_at h f k x = if h == k then map_session f x else x
