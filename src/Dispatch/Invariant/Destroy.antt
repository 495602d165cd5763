-- ===== src/Dispatch/Invariant/Destroy.antt =====
-- The invariant of the other handles through engine_destroy.
use aether_kiri.Prelude.{ℕ, refl, not, Option, none, some, List, [], ◌∷◌, ◌==◌}
use aether_kiri.Engine.Provider.{Provider}
use aether_kiri.Engine.Services.{Services}
use aether_kiri.Dispatch.State.{Backend, Handle, World, pure, ◌>>=◌, modify, deref, when}
use aether_kiri.Dispatch.Callbacks.{run_uncaught}
use aether_kiri.Dispatch.Lifecycle.{
  join_startup_thread, destroy_provider_runtime, destroy_media, destroy_legacy, destroy_body,
}
use aether_kiri.Dispatch.Keeps.{
  Keeps, Keeps-pure, Keeps-gets, Keeps-asks, Keeps-deref, Keeps-if, Keeps-bind, Keeps-modify,
}
use aether_kiri.Dispatch.Invariant.State.{Sound, Sound-modify, Sound-vital}
use aether_kiri.Dispatch.Invariant.Rules.{outside-Sound, run_uncaught-Sound}
use aether_kiri.Dispatch.Invariant.Bodies.{thread_step-Sound}

-- Nothing is asked of the handle that goes.
abbrev pub Going : {E : Type 0} → Backend → Option (Provider E) → ℕ → Type 0
Going b p runtime = Unit

module _ {E : Type 0} {s : Option (Services E)} {hs : List (ℕ × Handle E)} where
  join-Sound : Keeps (Sound s hs Going) join_startup_thread
  unfolding join_startup_thread
  join-Sound =
      Keeps-bind _ _ thread_step-Sound
        λ _. Keeps-bind _ _ thread_step-Sound λ _. Sound-modify _ (λ h. refl)

  destroy_provider_runtime-Sound : Keeps (Sound s hs Going) destroy_provider_runtime
  unfolding destroy_provider_runtime
  destroy_provider_runtime-Sound =
      Keeps-bind _ _ (Keeps-gets _)
        λ provider. Keeps-bind _ _ (Keeps-gets _) λ runtime. by_provider runtime provider
    where
      by_provider :
          (runtime : ℕ) (provider : Option (Provider E))
          → Keeps (Sound s hs Going) (elim provider [
            | none ↦ pure tt
            | some p ↦ when (not (runtime == 0)) (
                deref p.destroy >>= λ destroy. run_uncaught (λ env. destroy env runtime) >>= λ _.
                modify (λ h. record h { runtime = 0 }))
          ])
      by_provider runtime none = Keeps-pure _
      by_provider runtime (some p) =
          Keeps-if _ _ _
            (Keeps-bind _ _ (Keeps-deref _) λ destroy.
              Keeps-bind _ _ (run_uncaught-Sound _) λ _.
                Keeps-modify _ (λ w h q. Sound-vital s hs Going Going w h _ refl refl refl tt q))
            (Keeps-pure _)

  destroy_media-Sound : (media : List ℕ) → Keeps (Sound s hs Going) (destroy_media media)
  unfolding destroy_media
  destroy_media-Sound [] = Keeps-pure _
  destroy_media-Sound (m ∷ media) = Keeps-bind _ _ (Keeps-asks _) λ table.
      Keeps-bind _ _ (Keeps-deref _)
        λ services. Keeps-bind _ _ (outside-Sound _) λ r. destroy_media-Sound media

  destroy_legacy-Sound : Keeps (Sound s hs Going) destroy_legacy
  unfolding destroy_legacy
  destroy_legacy-Sound = Keeps-bind _ _ (Keeps-gets _) λ legacy. Keeps-if _ _ _ (Keeps-pure _) (
      Keeps-bind _ _ (Keeps-asks _)
        λ table. Keeps-bind _ _ (Keeps-deref _) (λ services. outside-Sound _))

  Sound-clear :
      (w : World E) (h : Handle E)
      → Sound s hs Going (record { world = w; handle = h })
      → Sound s hs Going (record { world = w; handle = record h { provider_media_handles = [] } })
  Sound-clear w h p = record {
    services = p.services;
    handles = p.handles;
    bounded = record {
      requests = p.bounded.requests;
      no_legacy = p.bounded.no_legacy;
      no_media = λ none. refl;
    };
    vital = tt;
  }

  pub destroy_body-Sound : (media : List ℕ) → Keeps (Sound s hs Going) (destroy_body media)
  unfolding destroy_body
  destroy_body-Sound media = Keeps-bind _ _ join-Sound λ _.
      Keeps-bind _ _ destroy_provider_runtime-Sound λ _. Keeps-bind _ _ (Keeps-gets _) λ own.
        Keeps-bind _ _ (destroy_media-Sound own) λ _.
          Keeps-bind _ _ (Keeps-modify _ Sound-clear)
            λ _. Keeps-bind _ _ (destroy_media-Sound media) λ _. destroy_legacy-Sound
