-- ===== src/InputGate/Edges.antt =====
-- The presses and releases of the primary button that the gate of abi/src/engine_input_queue_gate.h
-- lets through.
use aether_kiri.Prelude.{
  ◌≡◌, refl, subst, Bool, true, false, ℤ, pos, eq_ℤ, Option, none, some, List, [], ◌∷◌, leb,
  if◌then◌else◌, Bool-cases, inl, inr,
}
use aether_kiri.Engine.Calls.{EventType, InputEvent}
use aether_kiri.InputGate.Gestures.{
  Queue, offer, take_from, Step, offer_event, take_event, perform, empty_queue,
}
use aether_kiri.InputGate.{on_dequeued, Gate, is_down, press, lift, enqueue_primary, should_enqueue}

-- The events that enter the queue while the steps are performed.
unfoldable pub accepted : List Step → Queue → List InputEvent
accepted [] q = []
accepted (offer_event e ∷ ss) q =
    let rest = accepted ss (perform (offer_event e) q) in
    if (should_enqueue e q.gate).0 then e ∷ rest else rest
accepted (take_event ∷ ss) q = accepted ss (perform take_event q)

-- The pointer that is down before and after an accepted event.
abbrev pub Moves : EventType → ℤ → Option ℤ → Option ℤ → Type 0
Moves EventType.pointer_down id before after = (before ≡ none) × (after ≡ some id)
Moves EventType.pointer_up id before after = (is_down id before ≡ true) × (after ≡ none)
Moves _ id before after = after ≡ before

-- Events of other buttons move nothing.
abbrev pub Follows : InputEvent → Option ℤ → Option ℤ → Type 0
Follows e before after =
    if eq_ℤ e.button (pos 0) then Moves e.type e.pointer_id before after else after ≡ before

-- A press comes when no pointer is down, and a release when its own pointer is.
abbrev pub Alternates : Option ℤ → List InputEvent → Type 0
Alternates down [] = Unit
Alternates down (e ∷ es) = (next : Option ℤ) × Follows e down next × Alternates next es

abbrev Passes : (Option ℤ → Option ℤ → Type 0) → Option ℤ → Bool × Gate → Type 0
Passes R down (true, g) = R down g.primary_down_pointer_id
Passes R down (false, g) = g.primary_down_pointer_id ≡ down

press-Passes :
    (id : ℤ) (down : Option ℤ) (g : Gate)
    → g.primary_down_pointer_id ≡ down
    → Passes (Moves EventType.pointer_down id) down (press id down g)
unfolding press
press-Passes id (some p) g e = elim (Bool-cases (eq_ℤ p id)) [ inl f ↦ rw f e | inr f ↦ rw f e ]
press-Passes id none g e = elim (Bool-cases (leb 8 g.queued_primary_gestures)) [
  | inl f ↦ rw f e
  | inr f ↦ rw f (refl, refl)
]

lift-Passes :
    (id : ℤ) (g : Gate)
    → Passes (Moves EventType.pointer_up id) g.primary_down_pointer_id (lift id g)
unfolding lift
lift-Passes id g = elim (Bool-cases (is_down id g.primary_down_pointer_id)) [
  | inl f ↦ rw f (f, refl)
  | inr f ↦ rw f refl
]

same-Passes :
    (b : Bool) (t : EventType) (id : ℤ) (g : Gate)
    → Moves t id g.primary_down_pointer_id g.primary_down_pointer_id
    → Passes (Moves t id) g.primary_down_pointer_id (b, g)
same-Passes true t id g h = h
same-Passes false t id g h = refl

enqueue-Passes :
    (t : EventType) (id : ℤ) (g : Gate)
    → Passes (Moves t id) g.primary_down_pointer_id (enqueue_primary t id g)
unfolding enqueue_primary
enqueue-Passes EventType.pointer_down id g = press-Passes id g.primary_down_pointer_id g refl
enqueue-Passes EventType.pointer_move id g = same-Passes _ EventType.pointer_move id g refl
enqueue-Passes EventType.pointer_up id g = lift-Passes id g
enqueue-Passes _ id g = refl

should_enqueue-Passes :
    (e : InputEvent) (g : Gate) → Passes (Follows e) g.primary_down_pointer_id (should_enqueue e g)
unfolding should_enqueue
should_enqueue-Passes e g = by_button (eq_ℤ e.button (pos 0))
  where
    by_button :
        (b : Bool)
        → Passes
            (λ before after. if b then Moves e.type e.pointer_id before after else after ≡ before)
            g.primary_down_pointer_id
            (if b then enqueue_primary e.type e.pointer_id g else (true, g))
    by_button true = enqueue-Passes e.type e.pointer_id g
    by_button false = refl

offered-Alternates :
    (e : InputEvent) (down : Option ℤ) (r : Bool × Gate) (rest : List InputEvent)
    → Passes (Follows e) down r
    → Alternates r.1.primary_down_pointer_id rest
    → Alternates down (if r.0 then e ∷ rest else rest)
offered-Alternates e down (true, g) rest p a = (g.primary_down_pointer_id, p, a)
offered-Alternates e down (false, g) rest p a = subst (λ d. Alternates d rest) p a

taken_down :
    (g : Gate) (es : List InputEvent)
    → (take_from g es).gate.primary_down_pointer_id ≡ g.primary_down_pointer_id
unfolding take_from on_dequeued
taken_down g [] = refl
taken_down g (e ∷ es) = refl

accepted-Alternates :
    (ss : List Step) (q : Queue) → Alternates q.gate.primary_down_pointer_id (accepted ss q)
unfolding accepted perform offer
accepted-Alternates [] q = tt
accepted-Alternates (offer_event e ∷ ss) q =
    offered-Alternates e q.gate.primary_down_pointer_id (should_enqueue e q.gate)
      (accepted ss (perform (offer_event e) q)) (should_enqueue-Passes e q.gate)
      (accepted-Alternates ss (perform (offer_event e) q))
accepted-Alternates (take_event ∷ ss) q =
    subst (λ d. Alternates d (accepted ss (perform take_event q))) (taken_down q.gate q.events)
      (accepted-Alternates ss (perform take_event q))

-- From a new gate, whatever events are offered and taken: among the events that enter the queue, a
-- press of the primary button comes only when no pointer is down, and a release only from the pointer
-- that is down. So each accepted press is closed by the release of its own pointer before the next.
pub accepted-whole : (ss : List Step) → Alternates none (accepted ss empty_queue)
accepted-whole ss = accepted-Alternates ss empty_queue
