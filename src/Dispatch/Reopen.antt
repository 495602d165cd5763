-- ===== src/Dispatch/Reopen.antt =====
-- Opening a game again after an asynchronous open (abi/src/engine_api_dispatch.cpp).
use aether_kiri.Prelude.{ℕ, zero, suc, ◌≡◌, refl, subst, true, Option, none, some, Text, text}
use aether_kiri.Engine.Calls.{ok, invalid_state, plain}
use aether_kiri.Dispatch.State.{
  Thread, joinable, Local, Action, pure, ◌>>=◌, ◌>>◌, modify, modify_world, run,
}
use aether_kiri.Dispatch.Open.{
  start_provider, thread_started, open_game, open_in_thread, publish_in_thread, thread_step_from,
  thread_step,
}
use aether_kiri.Dispatch.Keeps.{Keeps, Holds, Keeps-pure, Keeps-gets, Keeps-bind}
use aether_kiri.Dispatch.Startup.{Returns, Yields, Yields-bind, modify-Yields}

module _ {E : Type 0} where
  -- Steps of the startup thread.
  unfoldable pub steps : ℕ → Action E (Unit {0})
  steps zero = pure tt
  steps (suc n) = do thread_step; steps n

  abbrev Joinable : Local E → Type 0
  Joinable l = joinable l.handle.startup_thread ≡ true

  Returns-Holds :
      (P : Local E → Type 0) (r : Option (Unit {0} × Local E)) → Returns (λ u. P) r → Holds P r
  Returns-Holds P none h = tt
  Returns-Holds P (some (u, l)) h = h

  Yields-Keeps : (P : Local E → Type 0) (m : Action E (Unit {0})) → Yields m (λ u. P) → Keeps P m
  Yields-Keeps P m y = record { at = λ l p. Returns-Holds P (m l) (y.at l) }

  step_from-Joinable : (t : Thread) → Keeps Joinable (thread_step_from t)
  unfolding thread_step_from
  step_from-Joinable Thread.absent = Keeps-pure _
  step_from-Joinable (Thread.spawned path script) =
      Yields-Keeps Joinable _
        (Yields-bind (open_in_thread path script) _ _ (λ r. modify-Yields _ _ (λ w h. refl)))
  step_from-Joinable (Thread.opened r) =
      Yields-Keeps Joinable _
        (Yields-bind (publish_in_thread r) _ _ (λ u. modify-Yields _ _ (λ w h. refl)))
  step_from-Joinable Thread.finished = Keeps-pure _

  steps-Joinable : (n : ℕ) → Keeps Joinable (steps n)
  unfolding steps thread_step
  steps-Joinable zero = Keeps-pure _
  steps-Joinable (suc n) =
      Keeps-bind _ _ (Keeps-bind _ _ (Keeps-gets _) step_from-Joinable) (λ u. steps-Joinable n)

  thread_started-Joinable :
      (path : Text) (script failure : Option Text)
      → Yields (thread_started path script failure) (λ reply l. reply.result ≡ ok → Joinable l)
  unfolding ◌>>=◌ modify modify_world pure
  thread_started-Joinable path script (some what) = record { at = λ l e. cc }
  thread_started-Joinable path script none = record { at = λ l e. refl }

  start_provider-Joinable :
      (path : Text) (script : Option Text)
      → Yields (start_provider path script) (λ reply l. reply.result ≡ ok → Joinable l)
  unfolding start_provider
  start_provider-Joinable path script = Yields-bind _ _ _ λ _.
      Yields-bind _ _ _
        λ _. Yields-bind _ _ _ λ os. Yields-bind _ _ _ (thread_started-Joinable path script)

  open_game-Joinable :
      (path : Text) (script : Option Text) (l : Local E)
      → Joinable l
      → (message : Text) × (run (open_game path script) l
          ≡ some
              (plain invalid_state, record l { world = record l.world { thread_error = message } }))
  unfolding run open_game
  open_game-Joinable path script l p =
      (text "an asynchronous startup task must finish before reopening", rw p refl)

  -- Once the provider branch of engine_open_game_async has returned OK, and however many steps its
  -- thread has made, its end included, opening a game in the caller with a path that is not empty
  -- returns INVALID_STATE and changes nothing but the caller's error: neither the provider nor the
  -- KiriKiri engine is reached.
  pub steps-open_game :
      (n : ℕ) (path path' : Text) (script script' : Option Text) (l l1 l2 : Local E)
      → run (start_provider path script) l ≡ some (plain ok, l1)
      → run (steps n) l1 ≡ some (tt, l2)
      → (message : Text) × (run (open_game path' script') l2
          ≡ some (
            plain invalid_state,
            record l2 { world = record l2.world { thread_error = message } },
          ))
  unfolding run
  steps-open_game n path path' script script' l l1 l2 started stepped =
      let held : Joinable l1 =
        subst (Returns (λ reply l'. reply.result ≡ ok → Joinable l')) started
          ((start_provider-Joinable path script).at l) refl in
      let kept : Joinable l2 = subst (Holds Joinable) stepped ((steps-Joinable n).at l1 held) in
      open_game-Joinable path' script' l2 kept
