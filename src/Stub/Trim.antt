-- ===== src/Stub/Trim.antt =====
-- The bounded queue of diagnostic events (abi/src/engine_api_stub.cpp): what the loop of
-- StubPushDiagnostic drops.
use aether_kiri.Prelude.{
  ℕ, zero, suc, pos, pos_part, ◌+ℤ◌, text, ◌+◌, ◌-◌, ◌≤◌, ◌<◌, ◌%◌, ◌^◌, ◌≡◌, refl, ◌∙◌, true, some,
  List, [], ◌∷◌, ◌++◌, Text, arith, leb, length, drop, Bool-cases, inl, inr, length-append, ap,
}
use aether_kiri.Stub.State.{Engine}
use aether_kiri.Stub.Diagnostics.{Trimmed, trim, push_diagnostic, append_event, event_line}
use aether_kiri.Stub.Json.{json_escape, decimal}

-- How many events are too many, one more being about to come.
abbrev pub excess : ℕ → List Text → ℕ
excess max events = length events + 1 - max

abbrev pub trimmed : ℕ → ℕ → List Text → Trimmed
trimmed max dropped events = record {
  events = drop (excess max events) events;
  dropped = (dropped + excess max events) % 2 ^ 64;
}

-- With room for one event at least the loop ends, without a look at an empty queue, when exactly the
-- oldest events that are too many are gone, and it counts them.
pub trim_lem :
    (max dropped : ℕ) (events : List Text)
    → 0 < max
    → dropped < 2 ^ 64
    → trim max dropped events ≡ some (trimmed max dropped events)
unfolding trim
trim_lem max dropped [] h d =
    let none_left : 0 + 1 - max ≡ 0 = omega arith in rw none_left (ground arith)
trim_lem max dropped (event ∷ events) h d = elim (Bool-cases (leb max (length (event ∷ events)))) [
  | inl e ↦
      let more : excess max (event ∷ events) ≡ suc (excess max events) = ground arith in
      let sum : ((dropped + 1) % 2 ^ 64 + excess max events) % 2 ^ 64
          ≡ (dropped + suc (excess max events)) % 2 ^ 64 =
        omega arith in
      rw (e, more)
        (trim_lem max ((dropped + 1) % 2 ^ 64) events h (omega arith)
          ∙ ap (λ n. some (record { events = drop (excess max events) events; dropped = n })) sum)
  | inr e ↦
      let none_left : excess max (event ∷ events) ≡ 0 = ground arith in
      rw (e, none_left) (ground arith)
]

length-drop : (n : ℕ) (xs : List Text) → length (drop n xs) ≡ length xs - n
length-drop zero xs = omega arith
length-drop (suc n) [] = omega arith
length-drop (suc n) (x ∷ xs) = omega (arith, length-drop n xs)

-- The engine after an event was recorded.
unfoldable pub recorded : Text → Text → ℕ → Engine → Engine
recorded event fields now e =
    append_event event now ((e.diagnostic_sequence + 1) % 2 ^ 64) fields
      (trimmed e.diagnostic_max_events e.diagnostic_dropped e.diagnostic_events) e

pub push_diagnostic-recorded :
    (event fields : Text) (now : ℕ) (e : Engine)
    → e.diagnostics_enabled ≡ true
    → 0 < e.diagnostic_max_events
    → e.diagnostic_dropped < 2 ^ 64
    → push_diagnostic event fields now e
      ≡ some ((e.diagnostic_sequence + 1) % 2 ^ 64, recorded event fields now e)
unfolding push_diagnostic recorded
push_diagnostic-recorded event fields now e enabled room d =
    rw (enabled, trim_lem e.diagnostic_max_events e.diagnostic_dropped e.diagnostic_events room d)
      refl

pub length-recorded :
    (event fields : Text) (now : ℕ) (e : Engine)
    → 0 < e.diagnostic_max_events
    → length (recorded event fields now e).diagnostic_events ≤ e.diagnostic_max_events
unfolding recorded append_event
length-recorded event fields now e room =
    let k = excess e.diagnostic_max_events e.diagnostic_events in
    omega (arith, length-append {0}, length-drop k e.diagnostic_events)

-- The pieces of a text, joined.
abbrev pub concat : List Text → Text
concat [] = []
concat (piece ∷ pieces) = piece ++ concat pieces

-- The JSON object of a pushed event, with the number that is returned, the clock reading moved by the
-- configured offset but not below 0, and the count of dropped events after the push.
abbrev pub pushed_line : Text → Text → ℕ → Engine → ℕ × Engine → Text
pushed_line event fields now e r = concat (
    text "{\"schema\":1,\"session\":\""
    ∷ json_escape e.diagnostic_session
    ∷ text "\",\"sequence\":"
    ∷ decimal r.0
    ∷ text ",\"monotonic_us\":"
    ∷ decimal (pos_part (pos now +ℤ e.diagnostic_monotonic_offset_us))
    ∷ text
        ",\"platform\":\"stub\",\"layer\":\"engine\",\"subsystem\":\"lifecycle\",\"level\":\"info\",\"event\":\""
    ∷ event
    ∷ text "\",\"duration_us\":0,\"queue_dropped\":"
    ∷ decimal r.1.diagnostic_dropped
    ∷ text ",\"fields\":"
    ∷ fields
    ∷ text "}"
    ∷ [])

-- What pushing an event does to an engine that records diagnostics: the number that it returns, the
-- events that stay in front of the new one, the counters and the settings.
pub record Records (event fields : Text) (now : ℕ) (e : Engine) (r : ℕ × Engine) : Type 0 where
  pub returns : push_diagnostic event fields now e ≡ some r
  pub sequence : r.0 ≡ (e.diagnostic_sequence + 1) % 2 ^ 64
  pub stored : r.1.diagnostic_sequence ≡ r.0
  pub events :
      r.1.diagnostic_events
      ≡ drop (length e.diagnostic_events + 1 - e.diagnostic_max_events) e.diagnostic_events
        ++ pushed_line event fields now e r ∷ []
  pub bounded : length r.1.diagnostic_events ≤ e.diagnostic_max_events
  pub dropped :
      r.1.diagnostic_dropped
      ≡ (e.diagnostic_dropped + (length e.diagnostic_events + 1 - e.diagnostic_max_events)) % 2 ^ 64
  pub settings :
      (r.1.diagnostic_max_events ≡ e.diagnostic_max_events) × (r.1.diagnostics_enabled ≡ true)

-- Pushing an event to an engine that records, has room for one event at least and whose drop counter
-- is a 64-bit number always returns: the oldest events go, as few as the limit asks for, and are
-- counted; the other events stay in order in front of the new one, which is the JSON object of the
-- event with its fields, the new sequence number and the drop counter; the sequence number grows by 1
-- modulo 2 ^ 64; the limit and the switch stay.
pub push_diagnostic-Records :
    (event fields : Text) (now : ℕ) (e : Engine)
    → e.diagnostics_enabled ≡ true
    → 0 < e.diagnostic_max_events
    → e.diagnostic_dropped < 2 ^ 64
    → (r : ℕ × Engine) × Records event fields now e r
unfolding recorded append_event event_line text
push_diagnostic-Records event fields now e enabled room d = (
  ((e.diagnostic_sequence + 1) % 2 ^ 64, recorded event fields now e),
  record {
    returns = push_diagnostic-recorded event fields now e enabled room d;
    sequence = refl;
    stored = refl;
    events = refl;
    bounded = length-recorded event fields now e room;
    dropped = refl;
    settings = (refl, enabled);
  },
)
