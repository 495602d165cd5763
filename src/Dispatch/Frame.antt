-- ===== src/Dispatch/Frame.antt =====
-- What the error functions of the dispatch layer leave alone.
pub mod Sessions
use aether_kiri.Prelude.{
  ℕ, ◌≤◌, ◌≡◌, refl, sym, ◌∙◌, ap, Bool, Option, none, some, List, [], ◌∷◌, Text, arith, length,
  tail, length-append, length-tail, is_empty, option_or, Bool-cases, inl, inr,
}
use aether_kiri.Engine.Calls.{
  Result, not_supported, CreateDesc, StartupState, Reply, plain, MediaCall,
}
use aether_kiri.Engine.Provider.{Session, Provider, MediaRequest}
use aether_kiri.Engine.Services.{Services, Os}
use aether_kiri.Registry.{Registry}
use aether_kiri.Dispatch.State.{
  Backend, Thread, Handle, Build, World, Local, Action, pure, ◌>>=◌, asks, modify, modify_world,
  outside, deref,
}
use aether_kiri.Dispatch.Errors.{
  set_provider_error, set_legacy_error, ensure_legacy, create_legacy, handle_error,
}
use aether_kiri.Dispatch.Callbacks.{
  erase, include, host_log, host_platform_request, push_request, host_media_open,
  host_media_destroy, host_media_call, host_media, media_call, interpret, run_session, run_uncaught,
  run_caught,
}
use aether_kiri.Dispatch.Keeps.{
  Keeps, Holds, Holds-deref, Holds-then, Keeps-pure, Keeps-gets, Keeps-asks, Keeps-deref, Keeps-if,
  Keeps-bind, Keeps-modify, Keeps-modify_world, Keeps-outside, keeps_rules,
}

-- All but the outside state, the error texts, the logs, the requests and the handles of the
-- KiriKiri engine and its media.
pub record Core (E : Type 0) : Type 0 where
  pub os : Os E
  pub build : Build
  pub registry : Registry E
  pub services : Option (Services E)
  pub handles : List (ℕ × Handle E)
  pub media_handles : List (ℕ × ℕ)
  pub backend : Backend
  pub provider : Option (Provider E)
  pub runtime : ℕ
  pub create_desc : CreateDesc
  pub writable_path : Text
  pub requested_runtime : Text
  pub beta_runtime_allowed : Bool
  pub pending_options : List (Text × Text)
  pub surface_width : ℕ
  pub surface_height : ℕ
  pub has_surface_size : Bool
  pub startup_thread : Thread
  pub startup_state : StartupState
  pub provider_resume_pending : Bool

module _ {E : Type 0} where
  abbrev pub core : Local E → Core E
  core l = record {
    os = l.world.os;
    build = l.world.build;
    registry = l.world.registry;
    services = l.world.services;
    handles = l.world.handles;
    media_handles = l.world.media_handles;
    backend = l.handle.backend;
    provider = l.handle.provider;
    runtime = l.handle.runtime;
    create_desc = l.handle.create_desc;
    writable_path = l.handle.writable_path;
    requested_runtime = l.handle.requested_runtime;
    beta_runtime_allowed = l.handle.beta_runtime_allowed;
    pending_options = l.handle.pending_options;
    surface_width = l.handle.surface_width;
    surface_height = l.handle.surface_height;
    has_surface_size = l.handle.has_surface_size;
    startup_thread = l.handle.startup_thread;
    startup_state = l.handle.startup_state;
    provider_resume_pending = l.handle.provider_resume_pending;
  }

  -- At most 256 requests wait, and without a services table nothing of the KiriKiri engine is open.
  pub record IsBounded (s : Option (Services E)) (h : Handle E) : Type 0 where
    pub requests : length h.platform_requests ≤ 256
    pub no_legacy : s ≡ none → h.legacy ≡ 0
    pub no_media : s ≡ none → h.provider_media_handles ≡ []

  pub record Calm (c : Core E) (l : Local E) : Type 0 where
    pub same : core l ≡ c
    pub bounded : IsBounded c.services l.handle

  module _ {c : Core E} where
    pub Calm-env : {A : Type 0} (f : E → E × A) → Keeps (Calm c) (outside f)
    Calm-env f = Keeps-outside f (λ w h env p. record { same = p.same; bounded = p.bounded })

    pub Calm-thread_error :
        (m : Text) → Keeps (Calm c) (modify_world (λ w. record w { thread_error = m }))
    Calm-thread_error m =
        Keeps-modify_world _ (λ w h p. record { same = p.same; bounded = p.bounded })

    pub Calm-last_error : (m : Text) → Keeps (Calm c) (modify (λ h. record h { last_error = m }))
    Calm-last_error m = Keeps-modify _ (λ w h p. record {
      same = p.same;
      bounded = record {
        requests = p.bounded.requests;
        no_legacy = p.bounded.no_legacy;
        no_media = p.bounded.no_media;
      };
    })

    -- The table that is read is that of `c`.
    pub Calm-services :
        {A : Type 0} (f : Services E → Action E A)
        → ((s : Services E) → c.services ≡ some s → Keeps (Calm c) (f s))
        → Keeps (Calm c) (asks (λ w. w.services) >>= λ o. deref o >>= f)
    unfolding ◌>>=◌ asks
    Calm-services f k = record {
      at = λ l h.
          Holds-deref (Calm c) l.world.services f l
            (λ s e. (k s (sym (ap (λ (d : Core E). d.services) h.same) ∙ e)).at l h);
    }

    pub Calm-services_any :
        {A : Type 0} (f : Services E → Action E A)
        → ((s : Services E) → Keeps (Calm c) (f s))
        → Keeps (Calm c) (asks (λ w. w.services) >>= λ o. deref o >>= f)
    Calm-services_any f k = Calm-services f (λ s _. k s)

    -- A handle of the KiriKiri engine can only be kept while there is a table.
    Calm-legacy :
        (s : Services E) (n : ℕ)
        → c.services ≡ some s
        → Keeps (Calm c) (modify (λ h. record h { legacy = n }))
    Calm-legacy s n e = Keeps-modify _ (λ w h p. record {
      same = p.same;
      bounded = record {
        requests = p.bounded.requests;
        no_legacy = λ q. cc;
        no_media = p.bounded.no_media;
      };
    })

    Calm-include :
        (s : Services E) (m : ℕ)
        → c.services ≡ some s
        → Keeps
            (Calm c)
            (modify (λ h. record h { provider_media_handles = include m h.provider_media_handles }))
    Calm-include s m e = Keeps-modify _ (λ w h p. record {
      same = p.same;
      bounded = record {
        requests = p.bounded.requests;
        no_legacy = p.bounded.no_legacy;
        no_media = λ q. cc;
      };
    })

    Calm-erase :
        (m : ℕ)
        → Keeps
            (Calm c)
            (modify (λ h. record h { provider_media_handles = erase m h.provider_media_handles }))
    unfolding erase
    Calm-erase m = Keeps-modify _ (λ w h p. record {
      same = p.same;
      bounded = record {
        requests = p.bounded.requests;
        no_legacy = p.bounded.no_legacy;
        no_media = λ q. rw (p.bounded.no_media q) refl;
      };
    })

    ruleset calm_basic = (keeps_rules, Calm-env, Calm-thread_error, Calm-last_error)

    pub set_provider_error-Calm : (r : Result) (m : Text) → Keeps (Calm c) (set_provider_error r m)
    unfolding set_provider_error
    set_provider_error-Calm r m = search calm_basic depth 12

    pub set_legacy_error-Calm : (r : Result) (m : Text) → Keeps (Calm c) (set_legacy_error r m)
    unfolding set_legacy_error
    set_legacy_error-Calm r m = search calm_basic depth 14

    create_legacy-Calm : Keeps (Calm c) create_legacy
    unfolding create_legacy
    create_legacy-Calm =
        Calm-services _ λ s e. search (calm_basic, set_legacy_error-Calm, Calm-legacy s) depth 14

    pub handle_error-Calm : (r : Result) (m : Text) → Keeps (Calm c) (handle_error r m)
    handle_error-Calm r m = search calm_basic depth 8

    pub ensure_legacy-Calm : Keeps (Calm c) ensure_legacy
    unfolding ensure_legacy
    ensure_legacy-Calm = Keeps-bind _ _ (Keeps-gets _) λ legacy.
        Keeps-bind _ _ (Keeps-asks _) (elim [
          | none ↦ Keeps-if _ _ _ (Keeps-pure _) (handle_error-Calm _ _)
          | some s ↦
              Keeps-if _ _ _ (Keeps-pure _)
                (Keeps-if _ _ _ create_legacy-Calm (handle_error-Calm _ _))
        ])
