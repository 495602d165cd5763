-- ===== src/Dispatch/Queues.antt =====
-- The two queues of a handle that the host drains: startup logs and platform requests
-- (DrainProviderStartupLogs, engine_poll_platform_request of abi/src/engine_api_dispatch.cpp).
use aether_kiri.Prelude.{
  ℕ, ◌+◌, ◌-◌, Bool, not, ◌||◌, List, [], ◌∷◌, ◌++◌, Text, text, ltb, ◌==◌, if◌then◌else◌, length,
  take,
}
use aether_kiri.Engine.Calls.{ok, invalid_argument, Reply, plain}
use aether_kiri.Dispatch.State.{Action, pure, ◌>>=◌, ◌>>◌, gets, modify}
use aether_kiri.Dispatch.Errors.{thread_error, set_thread_error}
use aether_kiri.Dispatch.Route.{Api, reject, locked, route}

-- What the loop has written, and the lines that stay.
pub record Drained : Type 0 where
  pub bytes : Text
  pub rest : List Text

-- The loop: lines move to the buffer, each with '\n', while they fit. `written` is the length of
-- `bytes` in the code.
unfoldable pub drain : ℕ → Text → List Text → Drained
drain size bytes [] = record { bytes = bytes; rest = [] }
drain size bytes (line ∷ rest) =
    if ltb (size - length bytes) (length line + 1)
    then record { bytes = bytes; rest = line ∷ rest }
    else drain size (bytes ++ (line ++ b'\n' ∷ [])) rest

-- out_buffer[std::min(written, buffer_size - 1u)] = '\0'
unfoldable pub terminate : ℕ → Text → Text
terminate size bytes = take (size - 1) bytes ++ 0 ∷ []

module _ {E : Type 0} where
  -- The reply is the byte count and then the buffer.
  unfoldable pub drain_provider_startup_logs : Bool → ℕ → Bool → Action E Reply
  unfolding drain terminate
  drain_provider_startup_logs buffer_given size written_given =
      if not written_given || not buffer_given || size == 0
      then pure (plain invalid_argument)
      else do
        logs ← gets (λ h. h.startup_logs)
        let drained = drain size [] logs
        modify (λ h. record h { startup_logs = drained.rest })
        pure (record { result = ok; out = length drained.bytes ∷ terminate size drained.bytes })

  unfoldable pub engine_drain_startup_logs : ℕ → Bool → ℕ → Bool → Api E
  unfolding route drain_provider_startup_logs
  engine_drain_startup_logs address buffer_given size written_given =
      route address (text "drain_startup_logs")
        (λ services env legacy. services.drain_startup_logs env legacy size)
        (drain_provider_startup_logs buffer_given size written_given)

  -- The sizes of the two output buffers, 0 for a null pointer or an empty buffer. The reply is the
  -- `out_available` flag and the two texts with their terminators.
  unfoldable pub poll_front : ℕ → ℕ → List (Text × Text) → Action E Reply
  poll_front operation_size argument_size [] = pure (record { result = ok; out = 0 ∷ [] })
  poll_front operation_size argument_size ((operation, argument) ∷ rest) =
      if operation_size == 0 || argument_size == 0
      then thread_error invalid_argument (text "platform request output buffers are invalid")
      else if ltb operation_size (length operation + 1) || ltb argument_size (length argument + 1)
      then thread_error invalid_argument (text "platform request output buffer is too small")
      else do
        modify (λ h. record h { platform_requests = rest })
        set_thread_error []
        pure (record { result = ok; out = 1 ∷ (operation ++ (0 ∷ (argument ++ 0 ∷ []))) })

  unfoldable pub poll_request : ℕ → ℕ → Action E Reply
  unfolding poll_front
  poll_request operation_size argument_size = do
    requests ← gets (λ h. h.platform_requests)
    poll_front operation_size argument_size requests

  unfoldable pub engine_poll_platform_request : ℕ → ℕ → ℕ → Bool → Api E
  unfolding locked poll_request
  engine_poll_platform_request address operation_size argument_size available_given =
      if not available_given
      then reject invalid_argument (text "engine_poll_platform_request requires out_available")
      else locked address (poll_request operation_size argument_size)
