-- ===== src/Dispatch/Frame/Sessions.antt =====
-- What a provider call, with all its callbacks into the host, leaves alone.
use aether_kiri.Prelude.{
  ℕ, ◌≤◌, Bool, Option, none, some, List, [], ◌∷◌, Text, arith, length, tail, length-append,
  length-tail, is_empty, option_or, Bool-cases, inl, inr,
}
use aether_kiri.Engine.Calls.{Result, not_supported, Reply, plain, MediaCall}
use aether_kiri.Engine.Provider.{Session, MediaRequest}
use aether_kiri.Dispatch.State.{Handle, World, Local, pure, outside}
use aether_kiri.Dispatch.Callbacks.{
  host_log, host_platform_request, push_request, host_media_open, host_media_destroy,
  host_media_call, host_media, media_call, interpret, run_session, run_uncaught, run_caught,
}
use aether_kiri.Dispatch.Keeps.{
  Keeps, Holds, Holds-then, Keeps-pure, Keeps-asks, Keeps-deref, Keeps-if, Keeps-bind,
}
use aether_kiri.Dispatch.Frame.{
  Core, Calm, Calm-env, Calm-services, Calm-services_any, Calm-include, Calm-erase, calm_basic,
  set_legacy_error-Calm, ensure_legacy-Calm,
}

push_request-le :
    (r : Text × Text) (queue : List (Text × Text))
    → length queue ≤ 256
    → length (push_request r queue) ≤ 256
unfolding push_request
push_request-le r queue h =
    ground
      (arith, length-append (tail queue) (r ∷ []), length-append queue (r ∷ []), length-tail queue)

module _ {E : Type 0} {c : Core E} where
  Calm-log :
      (level : ℕ) (subsystem message : Option Text) {w : World E} {h : Handle E}
      → Calm c (record { world = w; handle = h })
      → Calm c (record { world = w; handle = host_log level subsystem message h })
  unfolding host_log
  Calm-log level subsystem message p = record {
    same = p.same;
    bounded = record {
      requests = p.bounded.requests;
      no_legacy = p.bounded.no_legacy;
      no_media = p.bounded.no_media;
    };
  }

  Calm-queue :
      (q : List (Text × Text)) {w : World E} {h : Handle E}
      → length q ≤ 256
      → Calm c (record { world = w; handle = h })
      → Calm c (record { world = w; handle = record h { platform_requests = q } })
  Calm-queue q fits p = record {
    same = p.same;
    bounded = record {
      requests = fits;
      no_legacy = p.bounded.no_legacy;
      no_media = p.bounded.no_media;
    };
  }

  Calm-request :
      (operation argument : Option Text) {w : World E} {h : Handle E}
      → Calm c (record { world = w; handle = h })
      → Calm c (record { world = w; handle = host_platform_request operation argument h })
  unfolding host_platform_request
  Calm-request operation argument {w} {h} p =
      elim (Bool-cases (is_empty (option_or operation []))) [
        | inl e ↦ rw e p
        | inr e ↦ rw e (Calm-queue _ (push_request-le _ h.platform_requests p.bounded.requests) p)
      ]

  host_media_open-Calm :
      (path : Option Text) (given : Bool) → Keeps (Calm c) (host_media_open path given)
  unfolding host_media_open
  host_media_open-Calm path given = Keeps-if _ _ _ (Keeps-pure _) (
      Keeps-bind _ _ ensure_legacy-Calm λ ready.
        Keeps-if _ _ _
          (Calm-services _
            λ s e. search (calm_basic, set_legacy_error-Calm, Calm-include s) depth 14)
          (Keeps-pure _))

  host_media_destroy-Calm : (media : ℕ) → Keeps (Calm c) (host_media_destroy media)
  unfolding host_media_destroy
  host_media_destroy-Calm media =
      search (calm_basic, Calm-services_any, Calm-erase, set_legacy_error-Calm) depth 16

  pub media_call-Calm : (m : MediaCall) (media : ℕ) → Keeps (Calm c) (media_call m media)
  unfolding media_call
  media_call-Calm (MediaCall.set_volume volume) media =
      Calm-services_any _ λ s. Keeps-if _ _ _ (Keeps-pure _) (Calm-volume s.media_set_volume)
    where
      Calm-volume :
          (o : Option (E → ℕ → ℕ → E × Reply))
          → Keeps (Calm c) (elim o [
            | none ↦ pure (plain not_supported)
            | some f ↦ outside (λ env. f env media volume)
          ])
      Calm-volume none = Keeps-pure _
      Calm-volume (some f) = Calm-env _
  media_call-Calm _ media = Calm-services_any _ λ s. Calm-env _

  host_media_call-Calm : (m : MediaCall) (media : ℕ) → Keeps (Calm c) (host_media_call media m)
  unfolding host_media_call
  host_media_call-Calm m media =
      search (calm_basic, media_call-Calm, set_legacy_error-Calm) depth 12

  host_media-Calm : (r : MediaRequest) → Keeps (Calm c) (host_media r)
  unfolding host_media
  host_media-Calm (MediaRequest.open_media path given) = host_media_open-Calm path given
  host_media-Calm (MediaRequest.destroy media) = host_media_destroy-Calm media
  host_media-Calm (MediaRequest.call media m) = host_media_call-Calm m media
  host_media-Calm (MediaRequest.get_state media given) =
      Keeps-if _ _ _ (host_media_call-Calm _ _) (Keeps-pure _)
  host_media-Calm (MediaRequest.read_frame media pixels size given) =
      Keeps-if _ _ _ (Keeps-pure _) (host_media_call-Calm _ _)

  set_env-Calm :
      (env : E) {l : Local E}
      → Calm c l
      → Calm c (record l { world = record l.world { env = env } })
  set_env-Calm env p = record { same = p.same; bounded = p.bounded }

  -- A provider call can change nothing of `Core`, whatever callbacks it makes and however it ends;
  -- it keeps at most 256 requests waiting.
  pub interpret-Calm :
      {A : Type 0} (t : Session E A) (l : Local E) → Calm c l → Holds (Calm c) (interpret t l)
  unfolding interpret
  interpret-Calm (Session.finish env result) l p = set_env-Calm env p
  interpret-Calm (Session.log level subsystem message rest) l p =
      interpret-Calm rest _ (Calm-log level subsystem message p)
  interpret-Calm (Session.request operation argument rest) l p =
      interpret-Calm rest _ (Calm-request operation argument p)
  interpret-Calm (Session.media env r rest) l p =
      Holds-then (Calm c) (host_media r _) _ ((host_media-Calm r).at _ (set_env-Calm env p))
        λ reply l' q. interpret-Calm (rest l'.world.env reply) l' q

  pub run_session-Calm : {A : Type 0} (body : E → Session E A) → Keeps (Calm c) (run_session body)
  unfolding run_session
  run_session-Calm body =
      Keeps-bind _ _ (Keeps-asks _) λ env. record { at = interpret-Calm (body env) }

  pub run_uncaught-Calm : {A : Type 0} (body : E → Session E A) → Keeps (Calm c) (run_uncaught body)
  unfolding run_uncaught
  run_uncaught-Calm body = Keeps-bind _ _ (run_session-Calm body) (λ r. Keeps-deref r)

  pub run_caught-Calm : (body : E → Session E Result) → Keeps (Calm c) (run_caught body)
  unfolding run_caught
  run_caught-Calm body = Keeps-bind _ _ (run_session-Calm body) (λ r. Keeps-pure _)
