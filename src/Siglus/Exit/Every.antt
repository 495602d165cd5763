-- ===== src/Siglus/Exit/Every.antt =====
-- A game that asked to be left (bridge/siglus_runtime/src/siglus_runtime_provider.cpp): any calls.
use aether_kiri.Prelude.{
  ℕ, ◌≡◌, refl, Bool, true, false, not, ◌||◌, List, [], ◌∷◌, text, ◌==◌, if◌then◌else◌, All,
}
use aether_kiri.Engine.Calls.{invalid_state}
use aether_kiri.Siglus.State.{Shell, State, Answer}
use aether_kiri.Siglus.Controls.{pause, resume}
use aether_kiri.Siglus.Frames.{tick}
use aether_kiri.Siglus.Run.{Call, perform, perform_all}
use aether_kiri.Siglus.Exit.Rules.{HasLeft, Leaves, answer-Leaves}
use aether_kiri.Siglus.Exit.Runs.{
  tick-Leaves, set_paused-Leaves, set_option-Leaves, set_surface_size-Leaves, get_frame_desc-Leaves,
  read_frame-Leaves,
}
use aether_kiri.Siglus.Exit.Inputs.{
  send_input-Leaves, rendered_flag-Leaves, get_memory_stats-Leaves, get_text_input_details-Leaves,
  get_text_input_state-Leaves, native_texture-Leaves, copy_text-Leaves, debug_info-Leaves,
  platform_response-Leaves, renderer_info-Leaves,
}

abbrev pub is_open_game : Call → Bool
is_open_game (Call.open_game path) = true
is_open_game _ = false

module _ {E : Type 0} (a : Shell E) where
  perform-Leaves :
      (c : Call) (s : State E) → is_open_game c ≡ false → HasLeft s → Leaves (perform a c s)
  unfolding perform
  perform-Leaves (Call.open_game path) s e h = cc
  perform-Leaves (Call.tick delta) s e h = tick-Leaves a delta s h
  perform-Leaves Call.pause s e h =
      unfold pause in set_paused-Leaves a (text "siglus pause") true s h
  perform-Leaves Call.resume s e h =
      unfold resume in set_paused-Leaves a (text "siglus resume") false s h
  perform-Leaves Call.unsupported s e h = answer-Leaves a _ s h
  perform-Leaves (Call.set_option key value) s e h = set_option-Leaves a key value s h
  perform-Leaves (Call.set_surface_size width height) s e h =
      set_surface_size-Leaves a width height s h
  perform-Leaves (Call.get_frame_desc size) s e h = get_frame_desc-Leaves a size s h
  perform-Leaves (Call.read_frame pixels) s e h = read_frame-Leaves a pixels s h
  perform-Leaves (Call.get_native_frame_texture given) s e h = native_texture-Leaves a given s h
  perform-Leaves (Call.send_input event) s e h = send_input-Leaves a event s h
  perform-Leaves (Call.get_frame_rendered_flag given) s e h = rendered_flag-Leaves a given s h
  perform-Leaves (Call.get_renderer_info given size) s e h = renderer_info-Leaves a given size s h
  perform-Leaves (Call.get_memory_stats size) s e h = get_memory_stats-Leaves a size s h
  perform-Leaves (Call.get_debug_info given size count) s e h =
      debug_info-Leaves a given size count s h
  perform-Leaves (Call.submit_platform_response operation argument) s e h =
      platform_response-Leaves a operation argument s h
  perform-Leaves (Call.get_text_input_state given) s e h = get_text_input_state-Leaves a given s h
  perform-Leaves (Call.get_text_input_details size) s e h = get_text_input_details-Leaves a size s h
  perform-Leaves (Call.copy_text_input_text size) s e h = copy_text-Leaves a size s h
  perform-Leaves (Call.get_presentation_state given) s e h = record { state = h }

  perform_all-HasLeft :
      (calls : List Call) (s : State E)
      → HasLeft s
      → All (λ c. is_open_game c ≡ false) calls
      → HasLeft (perform_all a calls s)
  unfolding perform_all
  perform_all-HasLeft [] s h n = h
  perform_all-HasLeft (c ∷ calls) s h n =
      perform_all-HasLeft calls (perform a c s).state (perform-Leaves c s n.0 h).state n.1

  -- What tick does to a game that has left: nothing outside a the runtime changes.
  record IsIdle (s : State E) (x : Answer E) : Type 0 where
    pub result : x.result ≡ invalid_state
    pub env : x.state.env ≡ s.env

  branch-IsIdle :
      (s : State E) (b : Bool) (x y : Answer E)
      → IsIdle s x
      → IsIdle s y
      → IsIdle s (if b then x else y)
  branch-IsIdle s true x y h k = h
  branch-IsIdle s false x y h k = k

  true_branch-IsIdle :
      (s : State E) (b : Bool) (x y : Answer E)
      → b ≡ true
      → IsIdle s x
      → IsIdle s (if b then x else y)
  true_branch-IsIdle s b x y e h = rw e h

  tick-IsIdle : (delta : ℕ) (s : State E) → HasLeft s → IsIdle s (tick a delta s)
  unfolding tick
  tick-IsIdle delta s h =
      branch-IsIdle s ((s.runtime.ak == 0) || not s.runtime.opened) _ _
        (record { result = refl; env = refl })
        (true_branch-IsIdle s s.runtime.terminated _ _ h.terminated
          (record { result = refl; env = refl }))

  -- Once an opened game asked to be left, a tick behind any calls that do not open a game returns
  -- INVALID_STATE and leaves everything outside a the runtime as it is: the engine makes no step.
  pub perform_all-tick :
      (calls : List Call) (delta : ℕ) (s : State E)
      → HasLeft s
      → All (λ c. is_open_game c ≡ false) calls
      → ((tick a delta (perform_all a calls s)).result ≡ invalid_state)
        × ((tick a delta (perform_all a calls s)).state.env ≡ (perform_all a calls s).env)
  perform_all-tick calls delta s h n =
      let idle = tick-IsIdle delta (perform_all a calls s) (perform_all-HasLeft calls s h n) in
      (idle.result, idle.env)
