-- ===== src/InputGate/Gestures.antt =====
-- The gate of abi/src/engine_input_queue_gate.h before a queue: the number of complete gestures.
use aether_kiri.Prelude.{
  ℕ, ◌+◌, ◌≤◌, ◌≡◌, refl, Bool, true, false, ℤ, pos, eq_ℤ, Option, none, some, List, [], ◌∷◌, ◌++◌,
  arith, leb, if◌then◌else◌, Bool-cases, inl, inr,
}
use aether_kiri.Engine.Calls.{EventType, InputEvent}
use aether_kiri.InputGate.{
  Gate, is_down, press, lift, enqueue_primary, should_enqueue, released, gestures, on_dequeued,
  reset,
}

-- A gate and the queue behind it.
pub record Queue : Type 0 where
  pub gate : Gate
  pub events : List InputEvent

-- An accepted event goes to the end of the queue.
unfoldable pub offer : InputEvent → Queue → Queue
offer e q =
    let (accepted, g) = should_enqueue e q.gate in
    record { gate = g; events = if accepted then q.events ++ e ∷ [] else q.events }

-- The front of the queue is taken, if there is one.
unfoldable pub take_from : Gate → List InputEvent → Queue
unfolding on_dequeued
take_from g [] = record { gate = g; events = [] }
take_from g (e ∷ es) = record { gate = on_dequeued e g; events = es }

-- The number of complete gestures in a queue.
unfoldable pub waiting : List InputEvent → ℕ
waiting [] = 0
waiting (e ∷ es) = gestures e + waiting es

abbrev pressed : Option ℤ → ℕ
pressed none = 0
pressed (some id) = 1

-- The gate counts the complete gestures in the queue; with one that is still pressed they are at
-- most 8.
pub record IsCounted (q : Queue) : Type 0 where
  pub counted : q.gate.queued_primary_gestures ≡ waiting q.events
  pub room : q.gate.queued_primary_gestures + pressed q.gate.primary_down_pointer_id ≤ 8

waiting-append :
    (es : List InputEvent) (e : InputEvent) → waiting (es ++ e ∷ []) ≡ waiting es + gestures e
unfolding waiting
waiting-append [] e = omega arith
waiting-append (d ∷ es) e = omega (arith, waiting-append es e)

-- What an offer of an event with `n` gestures does to the count.
abbrev Accounts : ℕ → Gate → Bool × Gate → Type 0
Accounts n g (accepted, g') =
    (g'.queued_primary_gestures ≡ g.queued_primary_gestures + (if accepted then n else 0))
    × (g'.queued_primary_gestures + pressed g'.primary_down_pointer_id ≤ 8)

abbrev HasRoom : Gate → Type 0
HasRoom g = g.queued_primary_gestures + pressed g.primary_down_pointer_id ≤ 8

press-Accounts :
    (id : ℤ) (down : Option ℤ) (g : Gate)
    → g.primary_down_pointer_id ≡ down
    → HasRoom g
    → Accounts 0 g (press id down g)
unfolding press
press-Accounts id (some p) g e h = elim (Bool-cases (eq_ℤ p id)) [
  | inl f ↦ rw f (omega arith, h)
  | inr f ↦ rw f (omega arith, h)
]
press-Accounts id none g e h = elim (Bool-cases (leb 8 g.queued_primary_gestures)) [
  | inl f ↦ rw f (omega arith, h)
  | inr f ↦ rw f (omega arith, ground arith)
]

lifted_room :
    (id : ℤ) (down : Option ℤ) (n : ℕ) → is_down id down ≡ true → n + pressed down ≤ 8 → n + 1 ≤ 8
lifted_room id none n e h = cc
lifted_room id (some p) n e h = h

lift-Accounts : (id : ℤ) (g : Gate) → HasRoom g → Accounts 1 g (lift id g)
unfolding lift
lift-Accounts id g h = elim (Bool-cases (is_down id g.primary_down_pointer_id)) [
  | inl f ↦
      (let room = lifted_room id g.primary_down_pointer_id g.queued_primary_gestures f h in
        rw f (omega arith, omega arith))
  | inr f ↦ rw f (omega arith, h)
]

none_added : (b : Bool) (n : ℕ) → n ≡ n + (if b then 0 else 0)
none_added b n = ground arith

enqueue_primary-Accounts :
    (t : EventType) (id : ℤ) (g : Gate)
    → HasRoom g
    → Accounts (released t) g (enqueue_primary t id g)
unfolding enqueue_primary
enqueue_primary-Accounts EventType.pointer_down id g h =
    press-Accounts id g.primary_down_pointer_id g refl h
enqueue_primary-Accounts EventType.pointer_move id g h = (none_added _ g.queued_primary_gestures, h)
enqueue_primary-Accounts EventType.pointer_up id g h = lift-Accounts id g h
enqueue_primary-Accounts _ id g h = (omega arith, h)

should_enqueue-Accounts :
    (e : InputEvent) (g : Gate) → HasRoom g → Accounts (gestures e) g (should_enqueue e g)
unfolding should_enqueue gestures
should_enqueue-Accounts e g h = elim (Bool-cases (eq_ℤ e.button (pos 0))) [
  | inl f ↦ rw f (enqueue_primary-Accounts e.type e.pointer_id g h)
  | inr f ↦ rw f (omega arith, h)
]

offered-IsCounted :
    (e : InputEvent) (q : Queue) (r : Bool × Gate)
    → IsCounted q
    → Accounts (gestures e) q.gate r
    → IsCounted (record { gate = r.1; events = if r.0 then q.events ++ e ∷ [] else q.events })
offered-IsCounted e q (true, g) c a = record {
  counted =
      let one = waiting-append q.events e in
      let before = c.counted in let after = a.0 in omega arith;
  room = a.1;
}
offered-IsCounted e q (false, g) c a = record {
  counted = let before = c.counted in let after = a.0 in omega arith;
  room = a.1;
}

offer-IsCounted : (e : InputEvent) (q : Queue) → IsCounted q → IsCounted (offer e q)
unfolding offer
offer-IsCounted e q c =
    offered-IsCounted e q (should_enqueue e q.gate) c (should_enqueue-Accounts e q.gate c.room)

taken-IsCounted :
    (g : Gate) (es : List InputEvent)
    → IsCounted (record { gate = g; events = es })
    → IsCounted (take_from g es)
unfolding take_from on_dequeued waiting
taken-IsCounted g [] c = c
taken-IsCounted g (e ∷ es) c =
    let before = c.counted in
    let room = c.room in record { counted = omega arith; room = omega arith }

-- What a host does: it offers an event, or the engine takes the front of the queue.
pub data Step : Type 0 where
  offer_event : InputEvent → Step
  take_event : Step

unfoldable pub perform : Step → Queue → Queue
unfolding offer take_from
perform (offer_event e) q = offer e q
perform take_event q = take_from q.gate q.events

unfoldable pub perform_all : List Step → Queue → Queue
unfolding perform
perform_all [] q = q
perform_all (s ∷ ss) q = perform_all ss (perform s q)

perform-IsCounted : (s : Step) (q : Queue) → IsCounted q → IsCounted (perform s q)
unfolding perform
perform-IsCounted (offer_event e) q c = offer-IsCounted e q c
perform-IsCounted take_event q c = taken-IsCounted q.gate q.events c

perform_all-IsCounted : (ss : List Step) (q : Queue) → IsCounted q → IsCounted (perform_all ss q)
unfolding perform_all
perform_all-IsCounted [] q c = c
perform_all-IsCounted (s ∷ ss) q c =
    perform_all-IsCounted ss (perform s q) (perform-IsCounted s q c)

abbrev pub empty_queue : Queue
empty_queue = record { gate = reset; events = [] }

-- From a new gate and an empty queue, whatever events are offered and taken in whatever order, the
-- queue holds at most 8 complete gestures: releases of the primary button.
pub perform_all-waiting : (ss : List Step) → waiting (perform_all ss empty_queue).events ≤ 8
unfolding waiting
perform_all-waiting ss =
    let c =
      perform_all-IsCounted ss empty_queue (record { counted = omega arith; room = omega arith }) in
    let counted = c.counted in let room = c.room in omega arith
