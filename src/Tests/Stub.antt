-- ===== src/Tests/Stub.antt =====
-- Runs of the stub engine.
use aether_kiri.Prelude.{ℕ, ◌≡◌, refl, true, none, some, List, [], ◌∷◌, text, arith, lookup}
use aether_kiri.Engine.Calls.{CreateDesc}
use aether_kiri.Stub.State.{Engine, Stub, new_engine, new_stub}
use aether_kiri.Stub.Json.{json_escape}
use aether_kiri.Stub.Diagnostics.{drain_events}
use aether_kiri.Stub.Api.{HandleCall, StubCall, perform_all, on_handle}
use aether_kiri.Stub.Session.{Session, session_steps}
use aether_kiri.Stub.Sound.{SoundStub, view}
use aether_kiri.Stub.Refine.{new_stub-SoundStub, perform_all-session_steps}
use aether_kiri.Stub.Trim.{Records, push_diagnostic-Records}
use aether_kiri.Stub.RoundTrip.{plain, unescape, unescape-json_escape}
use aether_kiri.Stub.Drain.{IsDrained, drain_events-IsDrained}
use aether_kiri.Stub.Dead.{Refuses, on_handle-Refuses}

abbrev desc : CreateDesc
desc = record {
  struct_size = 96;
  api_version = 0x01060000;
  writable_path = none;
  cache_path = none;
  user_data = 0;
}

abbrev calls : List StubCall
calls =
    StubCall.create (some desc) true 16
    ∷ StubCall.on 16 (HandleCall.open_game (some (text "game")))
    ∷ StubCall.on 16 (HandleCall.tick 16)
    ∷ StubCall.on 16 HandleCall.pause
    ∷ StubCall.on 16 (HandleCall.tick 16)
    ∷ []

-- One frame, and the game is held.
played : session_steps calls 16 none ≡ some (Session.held 1)
unfolding session_steps text
played = refl

perform_all-session_steps_example :
    (s' : Stub) × (perform_all calls new_stub ≡ some s')
    × SoundStub s'
    × ((k : ℕ) → view k s' ≡ session_steps calls k (view k new_stub))
perform_all-session_steps_example = perform_all-session_steps calls new_stub new_stub-SoundStub

-- An engine that records, with its queue full.
abbrev recording : Engine
recording = record new_engine {
  diagnostics_enabled = true;
  diagnostic_max_events = 2;
  diagnostic_events = text "first" ∷ text "second" ∷ [];
}

push_diagnostic-Records_example :
    (r : ℕ × Engine) × Records (text "issue_marker") (text "{}") 7 recording r
push_diagnostic-Records_example =
    push_diagnostic-Records (text "issue_marker") (text "{}") 7 recording refl (omega arith)
      (omega arith)

escaped_newline : json_escape (b'a' ∷ b'\n' ∷ 1 ∷ []) ≡ text "a\\n\\u0001"
unfolding json_escape text
escaped_newline = refl

unescape-json_escape_example :
    unescape plain (json_escape (b'a' ∷ b'"' ∷ 1 ∷ [])) ≡ some (b'a' ∷ b'"' ∷ 1 ∷ [])
unescape-json_escape_example = unescape-json_escape (b'a' ∷ b'"' ∷ 1 ∷ [])

drain_events-IsDrained_example :
    IsDrained 8 []
      ((b'a' ∷ b'b' ∷ []) ∷ (b'c' ∷ b'd' ∷ b'e' ∷ []) ∷ [])
      (drain_events 8 [] ((b'a' ∷ b'b' ∷ []) ∷ (b'c' ∷ b'd' ∷ b'e' ∷ []) ∷ []))
drain_events-IsDrained_example =
    drain_events-IsDrained 8 [] ((b'a' ∷ b'b' ∷ []) ∷ (b'c' ∷ b'd' ∷ b'e' ∷ []) ∷ []) (omega arith)
      (omega arith)

on_handle-Refuses_example : Refuses new_stub (on_handle 16 (HandleCall.tick 16) new_stub)
unfolding lookup
on_handle-Refuses_example = on_handle-Refuses 16 new_stub refl (HandleCall.tick 16)
