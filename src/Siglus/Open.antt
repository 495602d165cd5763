-- ===== src/Siglus/Open.antt =====
-- Creating and destroying a runtime, and opening a game
-- (bridge/siglus_runtime/src/siglus_runtime_provider.cpp). The runtime pointer is not null.
use aether_kiri.Prelude.{
  ℕ, ℤ, pos, negsuc, ltb_ℤ, Bool, true, false, not, ◌&&◌, ◌||◌, Option, none, some, [], ◌++◌, Text,
  text, ltb, ◌==◌, if◌then◌else◌, is_empty,
}
use aether_kiri.Engine.Calls.{ok, invalid_argument, not_supported, internal_error, Result}
use aether_kiri.Stub.Json.{decimal}
use aether_kiri.Siglus.State.{
  Shell, Geometry, Runtime, State, Answer, new_runtime, answer, log_host, detail, fail,
}

-- What Create returns: a result and, with OK, the new runtime.
pub record Created (E : Type 0) : Type 0 where
  pub env : E
  pub result : Result
  pub runtime : Option (Runtime E)

module _ {E : Type 0} (a : Shell E) where
  -- Create, with pointers that are not null: `supported` is the comparison of the host's API version,
  -- and the runtime itself is allocated.
  unfoldable pub create : Bool → Option (ℕ → Text → E → E) → E → Created E
  create supported log env =
      if not supported
      then record { env = env; result = not_supported; runtime = none }
      else let (env', ak) = a.create_shell env in
        if ak == 0
        then record { env = env'; result = internal_error; runtime = none }
        else record { env = env'; result = ok; runtime = some (new_runtime log ak) }

  unfoldable pub destroy : State E → E
  destroy s =
      let env = a.stop_output s.env in
      if s.runtime.ak == 0
      then env
      else a.destroy_shell s.runtime.ak (a.reset_shared s.runtime.ak env)

  -- The branch of OpenGame for a runtime with an open game.
  unfoldable pub close_open : State E → State E
  close_open s =
      if s.runtime.opened
      then record s {
        env = a.close_shell s.runtime.ak (a.reset_shared s.runtime.ak s.env);
        runtime = record s.runtime { opened = false };
      }
      else s

  -- The end of OpenGame: the game runs, with sound if there is an output.
  unfoldable pub opened_game : State E → Answer E
  unfolding log_host
  opened_game s =
      let s' = log_host 2 (text "siglus game opened") (record s {
        env = a.pause_output false (a.set_platform_request_callback s.runtime.ak s.env);
        runtime = record s.runtime {
          opened = true;
          paused = false;
          terminated = false;
          shared_current = false;
          ime_start = negsuc 0;
          ime_length = pos 0;
          error = [];
        };
      }) in
      let (env, failure) = a.start_output s'.env in
      elim failure [
        | none ↦ answer ok (record s' { env = env })
        | some message ↦
            answer ok
              (log_host 3 (text "siglus audio disabled: " ++ message) (record s' { env = env }))
      ]

  abbrev native_message : ℕ → ℕ → Runtime E → Text
  native_message width height r =
      text "siglus native surface "
      ++ (decimal width
          ++ (text "x"
              ++ (decimal height
                  ++ (text " (requested "
                      ++ (decimal r.pending_width
                          ++ (text "x" ++ (decimal r.pending_height ++ text ")")))))))

  -- After the resize to the native size.
  unfoldable pub resized_native : ℕ → ℕ → ℤ → State E → Answer E
  unfolding fail log_host opened_game decimal
  resized_native width height (negsuc n) s =
      let failure = fail a (text "siglus native surface resize") (negsuc n) s in
      record failure {
        state = record failure.state {
          env = a.close_shell failure.state.runtime.ak failure.state.env;
        };
      }
  resized_native width height (pos n) s = opened_game (
      log_host 2 (native_message width height s.runtime)
        (record s { runtime = record s.runtime { native_width = width; native_height = height } }))

  unfoldable pub resize_native : Geometry → State E → Answer E
  unfolding resized_native
  resize_native size s =
      let (env, code) = a.resize_shell s.runtime.ak size.width size.height s.env in
      resized_native size.width size.height code (record s { env = env })

  unfoldable pub choose_native : Geometry → State E → Answer E
  unfolding resize_native opened_game
  choose_native size s =
      if not (ltb_ℤ size.code (pos 0)) && (ltb 0 size.width && ltb 0 size.height)
      then resize_native size s
      else opened_game s

  unfoldable pub after_open : Text → ℤ → State E → Answer E
  unfolding fail log_host choose_native
  after_open path (negsuc n) s =
      fail a (text "siglus_ak_open") (negsuc n)
        (log_host 4 (text "siglus_ak_open failed for " ++ (path ++ (text ": " ++ detail a s))) s)
  after_open path (pos n) s =
      let (env, size) = a.game_screen_size s.runtime.ak s.env in
      choose_native size (record s { env = env })

  unfoldable pub open_game : Option Text → State E → Answer E
  unfolding close_open after_open
  open_game none s = answer invalid_argument s
  open_game (some path) s =
      if (s.runtime.ak == 0) || is_empty path
      then answer invalid_argument s
      else let closed = close_open s in
        let reset = record closed {
          runtime = record closed.runtime { native_width = 0; native_height = 0 };
        } in
        let (env, code) =
          a.open_shell reset.runtime.ak path reset.runtime.pending_width
            reset.runtime.pending_height reset.env in
        after_open path code (record reset { env = env })
