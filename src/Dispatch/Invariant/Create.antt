-- ===== src/Dispatch/Invariant/Create.antt =====
-- The invariant through SelectBackendLocked, where a handle goes over to a provider.
use aether_kiri.Prelude.{
  ℕ, ◌≡◌, ◌≢◌, refl, true, not, ◌&&◌, Option, none, some, List, [], ◌∷◌, Text, arith, is_empty,
  text, eq_text, ◌||◌, ◌==◌,
}
use aether_kiri.Engine.Calls.{Reply, Result, ok, plain, is_ok}
use aether_kiri.Engine.Provider.{Provider}
use aether_kiri.Engine.Services.{Services}
use aether_kiri.Registry.{Registered, find_provider}
use aether_kiri.Dispatch.State.{Backend, Handle, Local, Action, pure, run}
use aether_kiri.Dispatch.Select.{
  Scored, consider, probe_candidate, select_auto, after_option, replay_options, replay_surface_size,
  replay_settings, configure_runtime, create_runtime, created_result, failed_creation,
  destroy_runtime, use_legacy, select_scored, select_found, snapshot, select_undecided,
  select_backend,
}
use aether_kiri.Dispatch.Keeps.{
  Keeps, Holds, Keeps-pure, Keeps-gets, Keeps-asks, Keeps-deref, Keeps-if, Keeps-bind,
}
use aether_kiri.Dispatch.Invariant.State.{
  Leads-if, Leads-weaken, IsAlive, Sound, Leads, Leads-bind, Leads-Keeps, Leads-modify,
  Sound-modify_world, Sound-vital,
}
use aether_kiri.Dispatch.Invariant.Rules.{
  sound_rules, set_provider_error-Sound, run_uncaught-Sound, run_session-Sound, push_log-Sound,
  ensure_legacy-Sound, handle_error-Sound,
}

module _ {E : Type 0} {s : Option (Services E)} {hs : List (ℕ × Handle E)}
    {V : Backend → Option (Provider E) → ℕ → Type 0} where
  after_option-Sound :
      (key : Text) (rest : Action E Reply) (r : Result)
      → Keeps (Sound s hs V) rest
      → Keeps (Sound s hs V) (after_option key rest r)
  unfolding after_option
  after_option-Sound key rest Result.ok k = k
  after_option-Sound key rest Result.not_supported k = Keeps-bind _ _ (push_log-Sound _) (λ _. k)
  after_option-Sound key rest _ k =
      Keeps-bind _ _ (set_provider_error-Sound _ _) (λ _. Keeps-pure _)

  replay_options-Sound :
      (p : Provider E) (options : List (Text × Text))
      → Keeps (Sound s hs V) (replay_options p options)
  unfolding replay_options
  replay_options-Sound p [] = Keeps-pure _
  replay_options-Sound p ((key, value) ∷ options) = Keeps-bind _ _ (Keeps-gets _) λ runtime.
      Keeps-bind _ _ (run_uncaught-Sound _)
        λ reply. after_option-Sound key _ reply.result (replay_options-Sound p options)

  replay_surface_size-Sound : (p : Provider E) → Keeps (Sound s hs V) (replay_surface_size p)
  unfolding replay_surface_size
  replay_surface_size-Sound p = search sound_rules depth 14

  destroy_runtime-Sound :
      (p : Provider E) (runtime : ℕ) → Keeps (Sound s hs V) (destroy_runtime p runtime)
  unfolding destroy_runtime
  destroy_runtime-Sound p runtime = search sound_rules depth 8

  probe_candidate-Sound :
      (c : Registered E) (path : Text) → Keeps (Sound s hs V) (probe_candidate c path)
  unfolding probe_candidate
  probe_candidate-Sound c path = search sound_rules depth 8

  consider-Sound :
      (path : Text) (c : Registered E) (best : Option (Scored E))
      → Keeps (Sound s hs V) (consider path c best)
  unfolding consider
  consider-Sound path c best =
      Keeps-if _ _ _ (Keeps-pure _)
        (Keeps-bind _ _ (probe_candidate-Sound c path) (λ score. Keeps-pure _))

  select_auto-Sound :
      (path : Text) (cs : List (Registered E)) (best : Option (Scored E))
      → Keeps (Sound s hs V) (select_auto path cs best)
  unfolding select_auto
  select_auto-Sound path [] best = Keeps-pure _
  select_auto-Sound path (c ∷ cs) best =
      Keeps-bind _ _ (consider-Sound path c best) (λ best'. select_auto-Sound path cs best')

  snapshot-Sound : Keeps (Sound s hs V) snapshot
  unfolding snapshot
  snapshot-Sound = Keeps-bind _ _ (Keeps-asks _) λ os.
      Keeps-bind _ _ (Keeps-asks _)
        λ both. Keeps-bind _ _ (Sound-modify_world _ (λ w. refl) (λ w. refl)) (λ _. Keeps-pure _)

created_runtime : (r : Result) (n : ℕ) → (is_ok r && not (n == 0)) ≡ true → n ≢ 0
created_runtime r n h = ground arith

module _ {E : Type 0} (s : Option (Services E)) (hs : List (ℕ × Handle E)) where
  -- Inside SelectBackendLocked, before the backend is set.
  abbrev Undecided : Backend → Option (Provider E) → ℕ → Type 0
  Undecided b q runtime = b ≡ Backend.undecided

  abbrev Chosen : Provider E → Backend → Option (Provider E) → ℕ → Type 0
  Chosen p b q runtime = (b ≡ Backend.undecided) × (q ≡ some p)

  abbrev Created : Provider E → ℕ → Backend → Option (Provider E) → ℕ → Type 0
  Created p n b q runtime = (b ≡ Backend.undecided) × (q ≡ some p) × (runtime ≡ n)

  abbrev Alive : Local E → Type 0
  Alive = Sound s hs IsAlive

  replay_settings-Alive : (p : Provider E) → Keeps Alive (replay_settings p)
  unfolding replay_settings
  replay_settings-Alive p =
      search (sound_rules, replay_options-Sound, replay_surface_size-Sound) depth 14

  configure_runtime-IsAlive :
      (p : Provider E) (n : ℕ)
      → n ≢ 0
      → Leads (Sound s hs (Created p n)) (configure_runtime p) Alive
  unfolding configure_runtime
  configure_runtime-IsAlive p n h =
      Leads-bind _ Alive Alive _ _
        (Leads-modify _ _ _ λ w d q.
          Sound-vital s hs _ IsAlive w d _ refl refl refl
            (record { given = λ _. ground arith; created = λ _. ground arith }) q)
        λ _. Leads-Keeps _ _ (replay_settings-Alive p)

  idle_IsAlive :
      (V : Backend → Option (Provider E) → ℕ → Type 0)
      → ((b : Backend) (q : Option (Provider E)) (n : ℕ) → V b q n → b ≡ Backend.undecided)
      → (l : Local E) → Sound s hs V l
      → Alive l
  idle_IsAlive V u l q =
      let e = u _ _ _ q.vital in
      Sound-vital s hs V IsAlive l.world l.handle l.handle refl refl refl
        (record { given = λ p. cc; created = λ p. cc }) q

  failed_creation-IsAlive :
      (p : Provider E) (n : ℕ) (r : Result)
      → Leads (Sound s hs (Created p n)) (failed_creation p n r) Alive
  unfolding failed_creation
  failed_creation-IsAlive p n r =
      Leads-bind _ (Sound s hs (Created p n)) _ _ _ (Leads-Keeps _ _ (set_provider_error-Sound _ _))
        λ _.
          Leads-bind _ (Sound s hs (Created p n)) _ _ _
            (Leads-Keeps _ _ (Keeps-if _ _ _ (destroy_runtime-Sound p n) (Keeps-pure _)))
            λ _.
              Leads-bind _ Alive _ _ _
                (Leads-modify _ _ _ λ w d q.
                  Sound-vital s hs _ IsAlive w d _ refl refl refl
                    (record { given = λ e. cc; created = λ e. cc }) q)
                λ _. Leads-Keeps _ _ (Keeps-pure _)

  create_runtime-IsAlive : (p : Provider E) → Leads (Sound s hs Undecided) (create_runtime p) Alive
  unfolding create_runtime
  create_runtime-IsAlive p =
      Leads-bind _ (Sound s hs (Chosen p)) _ _ _
        (Leads-modify _ _ _
          λ w d q. Sound-vital s hs _ (Chosen p) w d _ refl refl refl (q.vital, refl) q)
        λ _. Leads-bind _ (Sound s hs (Chosen p)) _ _ _ (Leads-Keeps _ _ (Keeps-deref _)) λ create.
          Leads-bind _ (Sound s hs (Chosen p)) _ _ _ (Leads-Keeps _ _ (Keeps-gets _)) λ desc.
            Leads-bind _ (Sound s hs (Chosen p)) _ _ _ (Leads-Keeps _ _ (run_session-Sound _))
              λ created.
                Leads-bind _ (Sound s hs (Created p _)) _ _ _
                  (Leads-modify _ _ _ λ w d q.
                    Sound-vital s hs _ (Created p _) w d _ refl refl refl
                      (q.vital.0, q.vital.1, refl) q)
                  λ _.
                    Leads-if _ _ _ _ _
                      (λ e.
                        configure_runtime-IsAlive p _
                          (created_runtime (created_result created).0 _ e))
                      (λ _. failed_creation-IsAlive p _ _)

  use_legacy-IsAlive : Leads (Sound s hs Undecided) use_legacy Alive
  unfolding use_legacy
  use_legacy-IsAlive =
      Leads-bind _ Alive _ _ _
        (Leads-modify _ _ _ λ w d q.
          Sound-vital s hs _ IsAlive w d _ refl refl refl
            (record { given = λ e. cc; created = λ e. cc }) q)
        λ _. Leads-Keeps _ _ ensure_legacy-Sound

  select_scored-IsAlive :
      (o : Option (Scored E)) → Leads (Sound s hs Undecided) (select_scored o) Alive
  unfolding select_scored
  select_scored-IsAlive none = use_legacy-IsAlive
  select_scored-IsAlive (some (c, score)) = create_runtime-IsAlive c.api

  select_found-IsAlive :
      (requested : Text) (o : Option (Registered E))
      → Leads (Sound s hs Undecided) (select_found requested o) Alive
  unfolding select_found
  select_found-IsAlive requested none =
      Leads-weaken _ Alive _ (handle_error-Sound _ _) (idle_IsAlive Undecided (λ b q n e. e))
  select_found-IsAlive requested (some c) =
      Leads-if _ _ _ _ _ (λ _. use_legacy-IsAlive) (λ _. create_runtime-IsAlive c.api)

  select_undecided-IsAlive :
      (path : Text) → Leads (Sound s hs Undecided) (select_undecided path) Alive
  unfolding select_undecided
  select_undecided-IsAlive path =
      Leads-bind _ (Sound s hs Undecided) _ _ _ (Leads-Keeps _ _ (Keeps-gets _)) λ requested.
        Leads-bind _ (Sound s hs Undecided) _ _ _ (Leads-Keeps _ _ snapshot-Sound) λ providers.
          Leads-if _ _ (is_empty requested || eq_text requested (text "auto")) _ _
            (λ _.
              Leads-bind _ (Sound s hs Undecided) _ _ _
                (Leads-Keeps _ _ (select_auto-Sound path providers none)) select_scored-IsAlive)
            (λ _. select_found-IsAlive requested (find_provider requested providers))

  select_chosen-Alive :
      (path : Text) (b : Backend) (l : Local E)
      → l.handle.backend ≡ b
      → Alive l
      → Holds Alive
          (run (elim b [ Backend.undecided ↦ select_undecided path | _ ↦ pure (plain ok) ]) l)
  unfolding run
  select_chosen-Alive path Backend.undecided l e p =
      (select_undecided-IsAlive path).at l
        (Sound-vital s hs IsAlive Undecided l.world l.handle l.handle refl refl refl e p)
  select_chosen-Alive path Backend.legacy l e p = p
  select_chosen-Alive path Backend.provider l e p = p

  pub select_backend-Alive : (path : Text) → Keeps Alive (select_backend path)
  unfolding select_backend run
  select_backend-Alive path = record {
    at = λ l p. select_chosen-Alive path l.handle.backend l refl p;
  }
