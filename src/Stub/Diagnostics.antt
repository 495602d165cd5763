-- ===== src/Stub/Diagnostics.antt =====
-- The diagnostic events of abi/src/engine_api_stub.cpp. `now` is the reading of the steady clock in
-- microseconds, which is not negative. Sums of `int64_t` are taken without overflow, which is undefined
-- behaviour.
use aether_kiri.Prelude.{
  ℕ, ◌+◌, ◌%◌, ◌^◌, ℤ, pos, ◌+ℤ◌, sub_ℕ, pos_part, Bool, not, ◌||◌, Option, none, some, List, [],
  ◌∷◌, ◌++◌, Text, text, ltb, leb, ◌==◌, if◌then◌else◌, length, option_or,
}
use aether_kiri.Engine.Calls.{invalid_argument, invalid_state}
use aether_kiri.Dispatch.Queues.{terminate}
use aether_kiri.Stub.State.{Engine, Body, Api, reject, succeed, refuse, locked}
use aether_kiri.Stub.Json.{json_escape, decimal}

-- The queue and the drop counter while old events are dropped.
pub record Trimmed : Type 0 where
  pub events : List Text
  pub dropped : ℕ

-- while (events.size() >= max_events) { events.pop_front(); ++dropped; }
unfoldable pub trim : ℕ → ℕ → List Text → Option Trimmed
trim max dropped [] = if leb max 0 then none else some (record { events = []; dropped = dropped })
trim max dropped (event ∷ events) =
    if leb max (length (event ∷ events))
    then trim max ((dropped + 1) % 2 ^ 64) events
    else some (record { events = event ∷ events; dropped = dropped })

-- std::max<int64_t>(0, raw_now + offset)
abbrev aligned_now : ℕ → ℤ → ℕ
aligned_now now offset = pos_part (pos now +ℤ offset)

unfoldable pub event_line : Text → ℕ → ℕ → Text → ℕ → Text → Text
unfolding json_escape decimal
event_line session sequence monotonic event dropped fields =
    text "{\"schema\":1,\"session\":\""
    ++ (json_escape session
        ++ (text "\",\"sequence\":"
            ++ (decimal sequence
                ++ (text ",\"monotonic_us\":"
                    ++ (decimal monotonic
                        ++ (text ",\"platform\":\"stub\",\"layer\":\"engine\""
                            ++ (text ",\"subsystem\":\"lifecycle\",\"level\":\"info\""
                                ++ (text ",\"event\":\""
                                    ++ (event
                                        ++ (text "\",\"duration_us\":0"
                                            ++ (text ",\"queue_dropped\":"
                                                ++ (decimal dropped
                                                    ++ (text ",\"fields\":"
                                                        ++ (fields ++ text "}"))))))))))))))

unfoldable pub append_event : Text → ℕ → ℕ → Text → Trimmed → Engine → Engine
unfolding event_line
append_event event now sequence fields t e = record e {
  diagnostic_sequence = sequence;
  diagnostic_dropped = t.dropped;
  diagnostic_events =
      t.events
      ++ event_line e.diagnostic_session sequence (aligned_now now e.diagnostic_monotonic_offset_us)
          event t.dropped fields
        ∷ [];
}

unfoldable pub push_trimmed : Text → ℕ → ℕ → Text → Option Trimmed → Engine → Option (ℕ × Engine)
unfolding append_event
push_trimmed event now sequence fields none e = none
push_trimmed event now sequence fields (some t) e =
    some (sequence, append_event event now sequence fields t e)

-- StubPushDiagnostic: the sequence number of the event, 0 if nothing is recorded.
unfoldable pub push_diagnostic : Text → Text → ℕ → Engine → Option (ℕ × Engine)
unfolding push_trimmed trim
push_diagnostic event fields now e =
    if not e.diagnostics_enabled
    then some (0, e)
    else push_trimmed event now ((e.diagnostic_sequence + 1) % 2 ^ 64) fields
        (trim e.diagnostic_max_events e.diagnostic_dropped e.diagnostic_events) e

-- The members of engine_diagnostic_config_t that the stub reads.
pub record Config : Type 0 where
  pub struct_size : ℕ
  pub enabled : ℕ
  pub max_events : ℕ
  pub host_monotonic_origin_us : ℕ
  pub session_id : Option Text

-- sizeof(engine_diagnostic_config_t) with 64-bit pointers
abbrev diagnostic_config_size : ℕ
diagnostic_config_size = 104

-- std::clamp<size_t>(n, 64u, 10000u)
abbrev pub clamp_events : ℕ → ℕ
clamp_events n = if ltb n 64 then 64 else if ltb 10000 n then 10000 else n

-- static_cast<int64_t> of a `uint64_t`
abbrev to_int64 : ℕ → ℤ
to_int64 n = if ltb n (2 ^ 63) then pos n else sub_ℕ n (2 ^ 64)

abbrev monotonic_offset : ℕ → ℕ → ℤ
monotonic_offset origin now = if ltb 0 origin then to_int64 origin +ℤ sub_ℕ 0 now else pos 0

unfoldable pub configure : Config → ℕ → Engine → Engine
configure c now e = record e {
  diagnostics_enabled = not (c.enabled == 0);
  diagnostic_sequence = 0;
  diagnostic_dropped = 0;
  diagnostic_max_events = clamp_events c.max_events;
  diagnostic_monotonic_offset_us = monotonic_offset c.host_monotonic_origin_us now;
  diagnostic_session = option_or c.session_id [];
  diagnostic_events = [];
}

-- The end of a function that has pushed an event, with what it writes.
unfoldable pub pushed : (ℕ → List ℕ) → Option (ℕ × Engine) → Body
unfolding succeed
pushed out none g = none
pushed out (some (sequence, e)) g = succeed (out sequence) (record g { engine = e })

-- `now` and `now'` are the readings of the clock here and in StubPushDiagnostic.
unfoldable pub set_diagnostic_config : Config → ℕ → ℕ → Body
unfolding configure push_diagnostic pushed succeed
set_diagnostic_config c now now' g =
    let e = configure c now g.engine in
    if e.diagnostics_enabled
    then pushed (λ sequence. [])
        (push_diagnostic (text "diagnostic_session_started") (text "{}") now' e) g
    else succeed [] (record g { engine = e })

unfoldable pub engine_legacy_set_diagnostic_config : ℕ → Option Config → ℕ → ℕ → Api
unfolding reject locked set_diagnostic_config
engine_legacy_set_diagnostic_config address none now now' =
    reject invalid_argument [] (text "engine_diagnostic_config_t is invalid")
engine_legacy_set_diagnostic_config address (some c) now now' =
    if ltb c.struct_size diagnostic_config_size
    then reject invalid_argument [] (text "engine_diagnostic_config_t is invalid")
    else locked address [] (set_diagnostic_config c now now')

unfoldable pub mark_diagnostic_event : Text → ℕ → Body
unfolding push_diagnostic pushed refuse
mark_diagnostic_event label now g =
    if not g.engine.diagnostics_enabled
    then refuse invalid_state [] (text "diagnostic session is not enabled") g
    else pushed (λ sequence. sequence ∷ [])
        (push_diagnostic (text "issue_marker")
          (text "{\"label\":\"" ++ (json_escape label ++ text "\"}")) now g.engine)
        g

unfoldable pub engine_legacy_mark_diagnostic_event : ℕ → Option Text → Bool → ℕ → Api
unfolding reject locked mark_diagnostic_event
engine_legacy_mark_diagnostic_event address none sequence_given now =
    reject invalid_argument [] (text "label_utf8 and out_sequence are required")
engine_legacy_mark_diagnostic_event address (some label) sequence_given now =
    if not sequence_given
    then reject invalid_argument [] (text "label_utf8 and out_sequence are required")
    else locked address [] (mark_diagnostic_event label now)

-- The bytes that a drain has written, and the lines that stay.
pub record Drained : Type 0 where
  pub bytes : Text
  pub rest : List Text

-- A line's bytes and its '\n', and the sum with what is written, are `uint32_t`.
abbrev pub end_of : Text → Text → ℕ
end_of bytes line = (length bytes + (length line + 1) % 2 ^ 32) % 2 ^ 32

-- The loop of engine_drain_diagnostic_events: the last byte of the buffer is kept free.
unfoldable pub drain_events : ℕ → Text → List Text → Drained
drain_events size bytes [] = record { bytes = bytes; rest = [] }
drain_events size bytes (line ∷ lines) =
    if leb size (end_of bytes line)
    then record { bytes = bytes; rest = line ∷ lines }
    else drain_events size (bytes ++ (line ++ b'\n' ∷ [])) lines

-- The reply is the byte count and the buffer.
unfoldable pub drain_diagnostic_events : ℕ → Body
unfolding drain_events terminate succeed
drain_diagnostic_events size g =
    let drained = drain_events size [] g.engine.diagnostic_events in
    succeed (length drained.bytes ∷ terminate size drained.bytes)
      (record g { engine = record g.engine { diagnostic_events = drained.rest } })

unfoldable pub engine_legacy_drain_diagnostic_events : ℕ → Bool → ℕ → Bool → Api
unfolding reject locked drain_diagnostic_events
engine_legacy_drain_diagnostic_events address buffer_given size written_given =
    if (not written_given || not buffer_given) || size == 0
    then reject invalid_argument [] (text "diagnostic output buffer is invalid")
    else locked address [] (drain_diagnostic_events size)
