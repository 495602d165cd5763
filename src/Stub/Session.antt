-- ===== src/Stub/Session.antt =====
-- What a host may rely on of the stub engine (abi/src/engine_api_stub.cpp), without its structures:
-- an engine waits for a game, plays it or holds it, and counts the frames.
use aether_kiri.Prelude.{
  ℕ, ◌+◌, ◌%◌, ◌^◌, Bool, false, not, ◌&&◌, Option, none, some, List, [], ◌∷◌, Text, ltb, ◌==◌,
  if◌then◌else◌, is_empty,
}
use aether_kiri.Engine.Calls.{CreateDesc, create_desc_size, engine_api_version, major}
use aether_kiri.Stub.State.{EngineState, Engine}
use aether_kiri.Stub.Api.{HandleCall, StubCall}

pub data Session : Type 0 where
  waiting playing held : ℕ → Session

abbrev pub session_at : EngineState → ℕ → Session
session_at EngineState.created n = waiting n
session_at EngineState.opened n = playing n
session_at EngineState.paused n = held n
session_at EngineState.destroyed n = waiting n

abbrev pub session_of : Engine → Session
session_of e = session_at e.state e.frame_serial

abbrev pub frames : Session → ℕ
frames (waiting n) = n
frames (playing n) = n
frames (held n) = n

abbrev pub ticked : Session → Session
ticked (waiting n) = waiting n
ticked (playing n) = playing ((n + 1) % 2 ^ 64)
ticked (held n) = held n

abbrev pub paused_session : Session → Session
paused_session (waiting n) = waiting n
paused_session (playing n) = held n
paused_session (held n) = held n

abbrev pub resumed : Session → Session
resumed (waiting n) = waiting n
resumed (playing n) = playing n
resumed (held n) = playing n

abbrev pub opened_by : Option Text → Session → Session
opened_by none x = x
opened_by (some path) x = if is_empty path then x else playing (frames x)

-- Only four kinds of calls on a handle move its session.
abbrev pub moved : HandleCall → Session → Session
moved (HandleCall.open_game path) x = opened_by path x
moved (HandleCall.open_game_async path) x = opened_by path x
moved (HandleCall.tick delta_ms) x = ticked x
moved HandleCall.pause x = paused_session x
moved HandleCall.resume x = resumed x
moved _ x = x

-- Whether engine_create gives a handle.
abbrev pub is_created : Option CreateDesc → Bool → ℕ → Bool
is_created none given address = false
is_created (some desc) given address =
    given
    && (not (ltb desc.struct_size create_desc_size)
        && (major desc.api_version == major engine_api_version && not (address == 0)))

abbrev pub map_session : (Session → Session) → Option Session → Option Session
map_session f none = none
map_session f (some x) = some (f x)

-- What a call does to the session behind the handle `k`, `none` if `k` is not live.
abbrev pub session_step : StubCall → ℕ → Option Session → Option Session
session_step (StubCall.create desc given address) k x =
    if is_created desc given address && address == k then some (waiting 0) else x
session_step (StubCall.destroy h) k x = if h == k then none else x
session_step (StubCall.on h call) k x = if h == k then map_session (moved call) x else x
session_step (StubCall.free call) k x = x
session_step (StubCall.get_last_error h) k x = x
session_step StubCall.activate_audio_session_for_host k x = x
session_step StubCall.drain_texture_recycle k x = x

unfoldable pub session_steps : List StubCall → ℕ → Option Session → Option Session
session_steps [] k x = x
session_steps (c ∷ calls) k x = session_steps calls k (session_step c k x)
