-- ===== src/Dispatch/Resume.antt =====
-- Resuming a provider while the host's audio session is not active (engine_resume and engine_tick of
-- abi/src/engine_api_dispatch.cpp).
use aether_kiri.Prelude.{ℕ, ◌≡◌, refl, ◌∙◌, Bool, true, false, some, List, [], ◌∷◌}
use aether_kiri.Engine.Calls.{ok, Reply, plain, Member}
use aether_kiri.Engine.Provider.{provider_has}
use aether_kiri.Engine.Services.{Services}
use aether_kiri.Dispatch.State.{Local, Action, pure, ◌>>=◌, run}
use aether_kiri.Dispatch.Startup.{then_lem}
use aether_kiri.Dispatch.Run.{
  activate_provider_audio_session, tick_pending, tick_provider, resume_provider,
}

-- OK for every tick.
abbrev pub all_ok : List ℕ → List Reply
all_ok [] = []
all_ok (delta_ms ∷ rest) = plain ok ∷ all_ok rest

module _ {E : Type 0} where
  -- The services table is installed, and its activate_audio_session answers false in this state.
  abbrev pub IsInactive : Services E → (E → E × Bool) → E → Type 0
  IsInactive s f env = (s.activate_audio_session ≡ some f) × ((f env).1 ≡ false)

  -- The local state after the audio session has been asked.
  abbrev pub asked : (E → E × Bool) → Local E → Local E
  asked f l = record l { world = record l.world { env = (f l.world.env).0 } }

  abbrev pub pending : Bool → Local E → Local E
  pending b l = record l { handle = record l.handle { provider_resume_pending = b } }

  activate_lem :
      (s : Services E) (f : E → E × Bool) (l : Local E)
      → l.world.services ≡ some s
      → s.activate_audio_session ≡ some f
      → run activate_provider_audio_session l ≡ some ((f l.world.env).1, asked f l)
  unfolding run activate_provider_audio_session
  activate_lem s f l e m = rw (e, m) refl

  resume_inactive :
      (s : Services E) (f : E → E × Bool) (l : Local E)
      → l.world.services ≡ some s
      → s.activate_audio_session ≡ some f
      → (f l.world.env).1 ≡ false
      → provider_has l.handle.provider Member.resume ≡ true
      → run resume_provider l ≡ some (plain ok, pending true (asked f l))
  unfolding run resume_provider activate_provider_audio_session
  resume_inactive s f l e m i h = rw (h, e, m, i) refl

  tick_inactive :
      (s : Services E) (f : E → E × Bool) (delta_ms : ℕ) (l : Local E)
      → l.world.services ≡ some s
      → s.activate_audio_session ≡ some f
      → (f l.world.env).1 ≡ false
      → l.handle.provider_resume_pending ≡ true
      → run (tick_provider delta_ms) l ≡ some (plain ok, asked f l)
  unfolding run tick_provider tick_pending activate_provider_audio_session
  tick_inactive s f delta_ms l e m i p = rw (p, e, m, i) refl

  -- Ticks, one after another, and their replies.
  unfoldable pub ticks : List ℕ → Action E (List Reply)
  ticks [] = pure []
  ticks (delta_ms ∷ rest) = do
    reply ← tick_provider delta_ms
    replies ← ticks rest
    pure (reply ∷ replies)

  -- A resume, ticks after it, and all their replies.
  unfoldable pub resume_and_tick : List ℕ → Action E (List Reply)
  unfolding ticks
  resume_and_tick deltas = do
    reply ← resume_provider
    replies ← ticks deltas
    pure (reply ∷ replies)

  -- The state after the audio session has been asked once for each tick.
  abbrev pub asked_for : (E → E × Bool) → List ℕ → Local E → Local E
  asked_for f [] l = l
  asked_for f (delta_ms ∷ rest) l = asked_for f rest (asked f l)

  ticks_inactive :
      (s : Services E) (f : E → E × Bool) (deltas : List ℕ) (l : Local E)
      → ((env : E) → (f env).1 ≡ false)
      → l.world.services ≡ some s
      → s.activate_audio_session ≡ some f
      → l.handle.provider_resume_pending ≡ true
      → run (ticks deltas) l ≡ some (all_ok deltas, asked_for f deltas l)
  unfolding ticks pure run
  ticks_inactive s f [] l i e m p = refl
  ticks_inactive s f (delta_ms ∷ rest) l i e m p =
      then_lem (tick_provider delta_ms) (λ reply. ticks rest >>= λ replies. pure (reply ∷ replies))
        l (asked f l) (plain ok) (tick_inactive s f delta_ms l e m (i l.world.env) p)
      ∙ then_lem (ticks rest) (λ replies. pure (plain ok ∷ replies)) (asked f l) _ (all_ok rest)
          (ticks_inactive s f rest (asked f l) i e m p)

  pub resume-ticks :
      (s : Services E) (f : E → E × Bool) (deltas : List ℕ) (l : Local E)
      → ((env : E) → (f env).1 ≡ false)
      → l.world.services ≡ some s
      → s.activate_audio_session ≡ some f
      → provider_has l.handle.provider Member.resume ≡ true
      → run (resume_and_tick deltas) l
        ≡ some (plain ok ∷ all_ok deltas, asked_for f deltas (pending true (asked f l)))
  unfolding resume_and_tick run pure
  resume-ticks s f deltas l i e m h =
      then_lem resume_provider (λ reply. ticks deltas >>= λ replies. pure (reply ∷ replies)) l
        (pending true (asked f l)) (plain ok) (resume_inactive s f l e m (i l.world.env) h)
      ∙ then_lem (ticks deltas) (λ replies. pure (plain ok ∷ replies)) (pending true (asked f l)) _
          (all_ok deltas) (ticks_inactive s f deltas (pending true (asked f l)) i e m refl)
