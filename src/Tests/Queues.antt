-- ===== src/Tests/Queues.antt =====
-- Runs of the queues.
use aether_kiri.Prelude.{
  ℕ, ◌-◌, ◌≤◌, ◌≡◌, refl, true, none, some, List, map, take, All, [], ◌∷◌, ◌++◌, Text, text, arith,
  length,
}
use aether_kiri.Engine.Calls.{ok, Reply}
use aether_kiri.Dispatch.State.{Thread, World, Local, run}
use aether_kiri.Dispatch.Callbacks.{push_request}
use aether_kiri.Dispatch.Queues.{drain, drain_provider_startup_logs}
use aether_kiri.Dispatch.Logs.{
  joined, drain-fits, IsBlocked, drain-IsBlocked, drain_logs-taken, logged, drained, serve_all,
  nothing_drained, serve_all-stuck,
}
use aether_kiri.Dispatch.Fifo.{
  newest, push_request-newest, request_all, poll_all, reply_to, poll_all-request_all,
}
use aether_kiri.Tests.Sample.{handle_with, inside, two_requests}

abbrev two_lines : List Text
two_lines = text "one" ∷ text "second" ∷ []

drain-fits_example : length (drain 6 [] two_lines).bytes ≤ 6
drain-fits_example = drain-fits 6 [] two_lines (omega arith)

drain-IsBlocked_example :
    IsBlocked (6 - length (drain 6 [] two_lines).bytes) (drain 6 [] two_lines).rest
drain-IsBlocked_example = drain-IsBlocked 6 [] two_lines

-- A handle with these lines.
abbrev logging : Local ℕ
logging = record (inside Thread.absent []) {
  handle = record (handle_with Thread.absent []) { startup_logs = two_lines };
}

drain_logs-taken_example :
    (written : List Text) × (rest : List Text) × (two_lines ≡ written ++ rest)
    × (length (joined written) ≤ 6)
    × IsBlocked (6 - length (joined written)) rest
    × (run (drain_provider_startup_logs true 6 true) logging
        ≡ some (
          record {
            result = ok;
            out = length (joined written) ∷ (take 5 (joined written) ++ 0 ∷ []);
          },
          record logging { handle = record logging.handle { startup_logs = rest } },
        ))
drain_logs-taken_example = drain_logs-taken 6 logging (omega arith)

serve_all-stuck_example :
    (replies : List Reply) × (rest' : List Text) × (run
        (serve_all (drained 3 ∷ logged 2 none none ∷ drained 2 ∷ []))
        logging
      ≡ some (
        replies,
        record logging {
          handle = record logging.handle {
            startup_logs = text "one" ∷ ((text "second" ∷ []) ++ rest');
          };
        },
      ))
    × All (λ reply. reply ≡ nothing_drained) replies
unfolding text
serve_all-stuck_example =
    serve_all-stuck (drained 3 ∷ logged 2 none none ∷ drained 2 ∷ []) (text "one")
      (text "second" ∷ []) logging refl (omega arith)

drain_run : drain 6 [] two_lines ≡ record { bytes = text "one\n"; rest = text "second" ∷ [] }
unfolding drain text
drain_run = refl

push_request-newest_example :
    push_request (text "menu", []) two_requests
    ≡ newest 256 (two_requests ++ (text "menu", []) ∷ [])
push_request-newest_example = push_request-newest (text "menu", []) two_requests (omega arith)

poll_all-request_all_example :
    (w' : World ℕ) × (run (poll_all ((64, 64) ∷ (8, 8) ∷ [])) (record (inside Thread.absent []) {
      handle =
          request_all ((1 ∷ 2 ∷ [], []) ∷ (3 ∷ [], 4 ∷ []) ∷ []) (handle_with Thread.absent []);
    })
      ≡ some (
        map reply_to ((1 ∷ 2 ∷ [], []) ∷ (3 ∷ [], 4 ∷ []) ∷ []),
        record { world = w'; handle = handle_with Thread.absent [] },
      ))
    × (w'.env ≡ 0)
    × (w'.handles ≡ [])
poll_all-request_all_example =
    poll_all-request_all ((1 ∷ 2 ∷ [], []) ∷ (3 ∷ [], 4 ∷ []) ∷ []) ((64, 64) ∷ (8, 8) ∷ [])
      (inside Thread.absent []) refl (omega arith) (omega arith) (omega arith)
