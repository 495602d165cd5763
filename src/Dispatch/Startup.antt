-- ===== src/Dispatch/Startup.antt =====
-- How opening a game is published (abi/src/engine_api_dispatch.cpp): the startup state, in the caller
-- or in the startup thread.
use aether_kiri.Prelude.{
  ℕ, ◌≡◌, refl, sym, ap, ◌∙◌, subst, Option, none, some, [], ◌∷◌, ◌++◌, Text, text,
}
use aether_kiri.Engine.Calls.{Result, plain, StartupState}
use aether_kiri.Engine.Provider.{Provider, Session}
use aether_kiri.Dispatch.Callbacks.{run_caught}
use aether_kiri.Dispatch.State.{
  Thread, Handle, World, Local, Action, pure, ◌>>=◌, ◌>>◌, modify, modify_world, run,
}
use aether_kiri.Dispatch.Errors.{set_provider_error, set_thread_error}
use aether_kiri.Dispatch.Open.{
  opened_state, run_provider_open, open_in_thread, publish, open_provider, publish_in_thread,
  thread_step_from, thread_step,
}
use aether_kiri.Dispatch.Keeps.{Keeps, Holds, Keeps-modify, Keeps-modify_world, keeps_rules}
use aether_kiri.Dispatch.Invariant.State.{Leads, Leads-bind, Leads-Keeps, Leads-modify}

-- What the host logs about a result.
abbrev pub line_of : Result → Text
line_of Result.ok = text "runtime provider open_game => OK"
line_of _ = text "runtime provider open_game => FAILED"

-- The startup state that publishes a result.
abbrev pub IsPublished : Result → StartupState → Type 0
IsPublished Result.ok state = state ≡ StartupState.succeeded
IsPublished _ state = state ≡ StartupState.failed

opened_state-IsPublished : (r : Result) → IsPublished r (opened_state r)
opened_state-IsPublished Result.ok = refl
opened_state-IsPublished Result.invalid_argument = refl
opened_state-IsPublished Result.invalid_state = refl
opened_state-IsPublished Result.not_supported = refl
opened_state-IsPublished Result.io_error = refl
opened_state-IsPublished Result.internal_error = refl

module _ {E : Type 0} where
  -- `Q` of the value and the state after a run, unless it faulted.
  abbrev pub Returns : {A : Type 0} → (A → Local E → Type 0) → Option (A × Local E) → Type 0
  Returns Q none = Unit
  Returns Q (some (a, l)) = Q a l

  pub record Yields {A : Type 0} (m : Action E A) (Q : A → Local E → Type 0) : Type 0 where
    pub at : (l : Local E) → Returns Q (m l)

  Returns-next :
      {A B : Type 0} (r : Option (A × Local E)) (f : A → Action E B) (Q : B → Local E → Type 0)
      → ((a : A) → Yields (f a) Q)
      → Returns Q (elim r [ none ↦ none | some (a, l) ↦ f a l ])
  Returns-next none f Q k = tt
  Returns-next (some (a, l)) f Q k = (k a).at l

  pub Yields-bind :
      {A B : Type 0} (m : Action E A) (f : A → Action E B) (Q : B → Local E → Type 0)
      → ((a : A) → Yields (f a) Q)
      → Yields (m >>= f) Q
  unfolding ◌>>=◌
  Yields-bind m f Q k = record { at = λ l. Returns-next (m l) f Q k }

  -- What a last value says of the state that `m` leads to.
  Yields-last :
      {A : Type 0} (P : Local E → Type 0) (m : Action E (Unit {0})) (a : A)
      (Q : A → Local E → Type 0)
      → Leads (λ l. Unit {0}) m P
      → ((l : Local E) → P l → Q a l)
      → Yields (m >> pure a) Q
  unfolding ◌>>=◌ pure
  Yields-last P m a Q k f = record { at = λ l. last (m l) (k.at l tt) }
    where
      last :
          (r : Option (Unit {0} × Local E))
          → Holds P r
          → Returns Q (elim r [ none ↦ none | some (u, l) ↦ some (a, l) ])
      last none h = tt
      last (some (u, l)) h = f l h

  abbrev Published : StartupState → Local E → Type 0
  Published state l = l.handle.startup_state ≡ state

  error-Published :
      (state : StartupState) (r : Result) (fallback : Text)
      → Keeps (Published state) (set_provider_error r fallback)
  unfolding set_provider_error
  error-Published state r fallback = search (keeps_rules, thread-Published, last-Published) depth 12
    where
      thread-Published :
          (m : Text) → Keeps (Published state) (modify_world (λ w. record w { thread_error = m }))
      thread-Published m = Keeps-modify_world _ (λ w h p. p)

      last-Published :
          (m : Text) → Keeps (Published state) (modify (λ h. record h { last_error = m }))
      last-Published m = Keeps-modify _ (λ w h p. p)

  publish-Published :
      (r : Result) (fallback : Text)
      → Leads (λ l. Unit {0}) (publish r fallback) (Published (opened_state r))
  unfolding publish
  publish-Published r fallback =
      Leads-bind _ (Published (opened_state r)) _ _ _ (Leads-modify _ _ _ (λ w h u. refl))
        (λ _. Leads-Keeps _ _ (error-Published _ r fallback))

  open_provider-Yields :
      (path : Text) (script : Option Text)
      → Yields
          (open_provider path script)
          (λ reply l. IsPublished reply.result l.handle.startup_state)
  unfolding open_provider
  open_provider-Yields path script = Yields-bind _ _ _ λ _. Yields-bind _ _ _ λ _.
      Yields-bind _ _ _ λ r.
        Yields-last (Published (opened_state r)) _ (plain r) _ (publish-Published r _)
          (λ l h. subst (IsPublished r) (sym h) (opened_state-IsPublished r))

  -- Where the provider opens the game in the caller, the startup state is afterwards `succeeded` if
  -- the call returns OK and `failed` if it returns anything else, unless the call faults.
  pub open_provider-state :
      (path : Text) (script : Option Text) (l : Local E)
      → Returns
          (λ reply l'. IsPublished reply.result l'.handle.startup_state)
          (run (open_provider path script) l)
  unfolding run
  open_provider-state path script l = (open_provider-Yields path script).at l

  pub modify-Yields :
      (f : Handle E → Handle E) (Q : Unit {0} → Local E → Type 0)
      → ((w : World E) (h : Handle E) → Q tt (record { world = w; handle = f h }))
      → Yields (modify f) Q
  unfolding modify
  modify-Yields f Q k = record { at = λ l. k l.world l.handle }

  -- A known first part of a run.
  pub then_lem :
      {A B : Type 0} (m : Action E A) (k : A → Action E B) (l l' : Local E) (a : A)
      → run m l ≡ some (a, l')
      → run (m >>= k) l ≡ run (k a) l'
  unfolding run ◌>>=◌
  then_lem m k l l' a e = ap (λ r. run ((λ _. r) >>= k) l) e

  -- `l2` is `before` with the open that led from it to `opened` and gave `r` published: the thread is
  -- finished, the caller's error is as before, and all else is as the open left it.
  pub record IsDone (r : Result) (before opened l2 : Local E) : Type 0 where
    pub finished : l2.handle.startup_thread ≡ Thread.finished
    pub published : IsPublished r l2.handle.startup_state
    pub thread_error : l2.world.thread_error ≡ before.world.thread_error
    pub env : l2.world.env ≡ opened.world.env
    pub logs : l2.handle.startup_logs ≡ opened.handle.startup_logs ++ line_of r ∷ []
    pub requests : l2.handle.platform_requests ≡ opened.handle.platform_requests
    pub runtime : l2.handle.runtime ≡ opened.handle.runtime

  -- The state between the two steps.
  abbrev between : Result → Local E → Local E → Local E
  between r before opened = record {
    world = record opened.world { thread_error = before.world.thread_error };
    handle = record opened.handle { startup_thread = Thread.opened r };
  }

  Finishes : Result → Local E → Local E → Type 0
  Finishes r before opened =
      (l2 : Local E) × (run thread_step (between r before opened) ≡ some (tt, l2))
      × IsDone r before opened l2

  -- The state behind the second step.
  abbrev after : Text → StartupState → Text → Local E → Local E → Local E
  after message state line before opened = record {
    world = record opened.world { thread_error = before.world.thread_error };
    handle = record opened.handle {
      startup_thread = Thread.finished;
      startup_state = state;
      startup_logs = opened.handle.startup_logs ++ line ∷ [];
      last_error = message;
    };
  }

  after-Finishes :
      (r : Result) (message : Text) (state : StartupState) (before opened : Local E)
      → IsPublished r state
      → run thread_step (between r before opened)
        ≡ some (tt, after message state (line_of r) before opened)
      → Finishes r before opened
  unfolding Finishes
  after-Finishes r message state before opened p e = (
    after message state (line_of r) before opened,
    e,
    record {
      finished = refl;
      published = p;
      thread_error = refl;
      env = refl;
      logs = refl;
      requests = refl;
      runtime = refl;
    },
  )

  second_step : (r : Result) (before opened : Local E) → Finishes r before opened
  unfolding run thread_step thread_step_from publish_in_thread publish set_provider_error
  second_step Result.ok before opened = after-Finishes Result.ok _ _ before opened refl refl
  second_step Result.invalid_argument before opened =
      after-Finishes Result.invalid_argument _ _ before opened refl refl
  second_step Result.invalid_state before opened =
      after-Finishes Result.invalid_state _ _ before opened refl refl
  second_step Result.not_supported before opened =
      after-Finishes Result.not_supported _ _ before opened refl refl
  second_step Result.io_error before opened =
      after-Finishes Result.io_error _ _ before opened refl refl
  second_step Result.internal_error before opened =
      after-Finishes Result.internal_error _ _ before opened refl refl

  provider_open_lem :
      (p : Provider E) (f : E → ℕ → Text → Option Text → Session E Result) (path : Text)
      (script : Option Text) (l : Local E)
      → l.handle.provider ≡ some p
      → p.open_game ≡ some f
      → run (run_provider_open path script) l
        ≡ run (run_caught (λ env. f env l.handle.runtime path script)) l
  unfolding run run_provider_open
  provider_open_lem p f path script l e m = rw (e, m) refl

  opened_in_thread :
      (path : Text) (script : Option Text) (r : Result) (l opened : Local E)
      → run (run_provider_open path script) l ≡ some (r, opened)
      → run (open_in_thread path script) l
        ≡ some (
          r,
          record opened { world = record opened.world { thread_error = l.world.thread_error } },
        )
  unfolding open_in_thread run ◌>>=◌
  opened_in_thread path script r l opened e =
      then_lem (run_provider_open path script)
        (λ result. set_thread_error l.world.thread_error >> pure result) l opened r e

  spawned_step :
      (path : Text) (script : Option Text) (r : Result) (l opened : Local E)
      → run (run_provider_open path script) l ≡ some (r, opened)
      → run (thread_step_from (Thread.spawned path script)) l ≡ some (tt, between r l opened)
  unfolding run ◌>>=◌ thread_step_from
  spawned_step path script r l opened e =
      then_lem (open_in_thread path script)
        (λ result. modify (λ h. record h { startup_thread = Thread.opened result })) l _ r
        (opened_in_thread path script r l opened e)

  first_step :
      (path : Text) (script : Option Text) (r : Result) (l opened : Local E)
      → l.handle.startup_thread ≡ Thread.spawned path script
      → run (run_provider_open path script) l ≡ some (r, opened)
      → run thread_step l ≡ some (tt, between r l opened)
  unfolding run thread_step
  first_step path script r l opened t e =
      ap (λ thread. run (thread_step_from thread) l) t ∙ spawned_step path script r l opened e

  pub thread_step-IsDone :
      (p : Provider E) (f : E → ℕ → Text → Option Text → Session E Result) (path : Text)
      (script : Option Text) (r : Result) (l opened : Local E)
      → l.handle.provider ≡ some p
      → p.open_game ≡ some f
      → l.handle.startup_thread ≡ Thread.spawned path script
      → run (run_caught (λ env. f env l.handle.runtime path script)) l ≡ some (r, opened)
      → (l2 : Local E) × (run (thread_step >> thread_step) l ≡ some (tt, l2)) × IsDone r l opened l2
  unfolding Finishes
  thread_step-IsDone p f path script r l opened e m t call =
      let (l2, second, done) = second_step r l opened in
      let first =
        first_step path script r l opened t (provider_open_lem p f path script l e m ∙ call) in
      (l2, then_lem thread_step (λ _. thread_step) l (between r l opened) tt first ∙ second, done)
