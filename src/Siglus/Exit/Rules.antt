-- ===== src/Siglus/Exit/Rules.antt =====
-- A game that asked to be left (bridge/siglus_runtime/src/siglus_runtime_provider.cpp): what calls of the
-- shell leave behind.
use aether_kiri.Prelude.{ℕ, ℤ, pos, negsuc, ◌≡◌, Bool, true, false, Text, if◌then◌else◌}
use aether_kiri.Engine.Calls.{Result}
use aether_kiri.Siglus.State.{Shell, State, Answer, answer, fail, ok_or, call}

-- The game was opened, and asked to be left.
pub record HasLeft {E : Type 0} (s : State E) : Type 0 where
  pub opened : s.runtime.opened ≡ true
  pub terminated : s.runtime.terminated ≡ true

-- What a call leaves behind.
pub record Leaves {E : Type 0} (x : Answer E) : Type 0 where
  pub state : HasLeft x.state

module _ {E : Type 0} (a : Shell E) where
  pub answer-Leaves : (r : Result) (s : State E) → HasLeft s → Leaves (answer r s)
  answer-Leaves r s h = record { state = h }

  pub branch-Leaves :
      (b : Bool) (x y : Answer E) → Leaves x → Leaves y → Leaves (if b then x else y)
  branch-Leaves true x y h k = h
  branch-Leaves false x y h k = k

  pub true_branch-Leaves :
      (b : Bool) (x y : Answer E) → b ≡ true → Leaves x → Leaves (if b then x else y)
  true_branch-Leaves b x y e h = rw e h

  pub branch-HasLeft :
      (b : Bool) (s t : State E) → HasLeft s → HasLeft t → HasLeft (if b then s else t)
  branch-HasLeft true s t h k = h
  branch-HasLeft false s t h k = k

  pub outside : (env : E) (s : State E) → HasLeft s → HasLeft (record s { env = env })
  outside env s h = record { opened = h.opened; terminated = h.terminated }

  pub fail-Leaves :
      (context : Text) (code : ℤ) (s : State E) → HasLeft s → Leaves (fail a context code s)
  unfolding fail
  fail-Leaves context code s h = record {
    state = record { opened = h.opened; terminated = h.terminated };
  }

  pub ok_or-Leaves :
      (context : Text) (code : ℤ) (s : State E) → HasLeft s → Leaves (ok_or a context code s)
  unfolding ok_or
  ok_or-Leaves context (pos n) s h = answer-Leaves _ s h
  ok_or-Leaves context (negsuc n) s h = fail-Leaves context (negsuc n) s h

  pub call-Leaves :
      (context : Text) (f : ℕ → E → E × ℤ) (s : State E) → HasLeft s → Leaves (call a context f s)
  unfolding call
  call-Leaves context f s h =
      ok_or-Leaves context (f s.runtime.ak s.env).1 (record s { env = (f s.runtime.ak s.env).0 })
        (outside _ s h)
