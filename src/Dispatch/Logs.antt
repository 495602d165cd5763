-- ===== src/Dispatch/Logs.antt =====
-- DrainProviderStartupLogs of abi/src/engine_api_dispatch.cpp: what the buffer receives and what
-- stays in the queue.
use aether_kiri.Prelude.{
  ℕ, ◌+◌, ◌-◌, ◌≤◌, ◌<◌, ◌≡◌, refl, sym, ◌∙◌, ap, subst, true, false, append-nil, Option, some, All,
  ◌==◌, List, [], ◌∷◌, ◌++◌, Text, arith, ltb, length, take, length-append, append_assoc,
  Bool-cases, inl, inr,
}
use aether_kiri.Engine.Calls.{ok, Reply}
use aether_kiri.Dispatch.State.{Handle, World, Local, Action, pure, ◌>>=◌, ◌>>◌, modify, run}
use aether_kiri.Dispatch.Callbacks.{log_line, host_log}
use aether_kiri.Dispatch.Queues.{drain, terminate, drain_provider_startup_logs}
use aether_kiri.Dispatch.Startup.{then_lem}

-- The lines of a log, each with its '\n'.
unfoldable pub joined : List Text → Text
joined [] = []
joined (line ∷ rest) = (line ++ b'\n' ∷ []) ++ joined rest

length-line : (line : Text) → length (line ++ b'\n' ∷ []) ≡ length line + 1
length-line line = omega (arith, length-append line (b'\n' ∷ []))

-- The lines that `drain` takes.
drain_taken :
    (size : ℕ) (bytes : Text) (lines : List Text)
    → (written : List Text) × (lines ≡ written ++ (drain size bytes lines).rest)
      × ((drain size bytes lines).bytes ≡ bytes ++ joined written)
unfolding drain joined
drain_taken size bytes [] = ([], refl, sym (append-nil bytes))
drain_taken size bytes (line ∷ rest) =
    elim (Bool-cases (ltb (size - length bytes) (length line + 1))) [
      | inl e ↦ rw e ([], refl, sym (append-nil bytes))
      | inr e ↦
          let (written, whole, taken) = drain_taken size (bytes ++ (line ++ b'\n' ∷ [])) rest in
          rw e (
            line ∷ written,
            ap (λ x. line ∷ x) whole,
            taken ∙ append_assoc bytes (line ++ b'\n' ∷ []) (joined written),
          )
    ]

-- The buffer is never overrun.
pub drain-fits :
    (size : ℕ) (bytes : Text) (lines : List Text)
    → length bytes ≤ size
    → length (drain size bytes lines).bytes ≤ size
unfolding drain
drain-fits size bytes [] h = h
drain-fits size bytes (line ∷ rest) h =
    elim (Bool-cases (ltb (size - length bytes) (length line + 1))) [
      | inl e ↦ rw e h
      | inr e ↦ rw e (
          drain-fits size (bytes ++ (line ++ b'\n' ∷ [])) rest
            (ground (arith, length-append bytes (line ++ b'\n' ∷ []), length-line line)))
    ]

-- The line at the front of the queue, if there is one, needs more than `room` bytes.
abbrev pub IsBlocked : ℕ → List Text → Type 0
IsBlocked room [] = Unit
IsBlocked room (line ∷ rest) = room < length line + 1

-- The buffer is used as far as whole lines go: the first line that stays does not fit.
pub drain-IsBlocked :
    (size : ℕ) (bytes : Text) (lines : List Text)
    → IsBlocked (size - length (drain size bytes lines).bytes) (drain size bytes lines).rest
unfolding drain
drain-IsBlocked size bytes [] = tt
drain-IsBlocked size bytes (line ∷ rest) =
    elim (Bool-cases (ltb (size - length bytes) (length line + 1))) [
      | inl e ↦ rw e (ground arith)
      | inr e ↦ rw e (drain-IsBlocked size (bytes ++ (line ++ b'\n' ∷ [])) rest)
    ]

length-take : (n : ℕ) (s : Text) → length (take n s) ≤ n
length-take ℕ.zero s = omega arith
length-take (ℕ.suc n) [] = omega arith
length-take (ℕ.suc n) (c ∷ s) = omega (arith, length-take n s)

take-nil : (n : ℕ) → take {A = ℕ} n [] ≡ []
take-nil ℕ.zero = refl
take-nil (ℕ.suc n) = refl

take-all : (n : ℕ) (s : Text) → length s ≤ n → take n s ≡ s
take-all n [] h = take-nil n
take-all ℕ.zero (c ∷ s) h = ground arith
take-all (ℕ.suc n) (c ∷ s) h = ap (λ t. c ∷ t) (take-all n s (omega arith))

-- The terminator stays in the buffer, and the text before it is whole unless the buffer is full.
pub terminate-fits : (size : ℕ) (bytes : Text) → 1 ≤ size → length (terminate size bytes) ≤ size
unfolding terminate
terminate-fits size bytes h =
    omega (arith, length-append (take (size - 1) bytes) (0 ∷ []), length-take (size - 1) bytes)

pub terminate-whole :
    (size : ℕ) (bytes : Text) → length bytes < size → terminate size bytes ≡ bytes ++ 0 ∷ []
unfolding terminate
terminate-whole size bytes h = rw (take-all (size - 1) bytes (omega arith)) refl

-- A line that is as long as the buffer or longer stays.
drain-stuck :
    (size : ℕ) (line : Text) (rest : List Text)
    → size ≤ length line
    → drain size [] (line ∷ rest) ≡ record { bytes = []; rest = line ∷ rest }
unfolding drain
drain-stuck size line rest h = elim (Bool-cases (ltb (size - 0) (length line + 1))) [
  | inl e ↦ rw e refl
  | inr e ↦ ground arith
]

-- What happens to the logs of a handle: a provider logs a line, or the host drains.
pub data LogStep : Type 0 where
  logged : ℕ → Option Text → Option Text → LogStep
  drained : ℕ → LogStep

-- The buffers of the drains are not empty and have at most `bound` bytes.
abbrev pub AreAtMost : ℕ → List LogStep → Type 0
AreAtMost bound [] = Unit
AreAtMost bound (logged level subsystem message ∷ steps) = AreAtMost bound steps
AreAtMost bound (drained size ∷ steps) = (0 < size) × (size ≤ bound) × AreAtMost bound steps

-- The reply without a line: no bytes, and the terminator.
abbrev pub nothing_drained : Reply
nothing_drained = record { result = ok; out = 0 ∷ 0 ∷ [] }

module _ {E : Type 0} where
  pub drain_logs-taken :
      (size : ℕ) (l : Local E)
      → 0 < size
      → (written : List Text) × (rest : List Text) × (l.handle.startup_logs ≡ written ++ rest)
        × (length (joined written) ≤ size)
        × IsBlocked (size - length (joined written)) rest
        × (run (drain_provider_startup_logs true size true) l
            ≡ some (
              record {
                result = ok;
                out = length (joined written) ∷ (take (size - 1) (joined written) ++ 0 ∷ []);
              },
              record l { handle = record l.handle { startup_logs = rest } },
            ))
  unfolding run drain_provider_startup_logs terminate
  drain_logs-taken size l room =
      let (written, whole, taken) = drain_taken size [] l.handle.startup_logs in
      let given : (size == 0) ≡ false = ground arith in
      (
        written,
        (drain size [] l.handle.startup_logs).rest,
        whole,
        subst (λ bytes. length bytes ≤ size) taken
            (drain-fits size [] l.handle.startup_logs (omega arith)),
        subst (λ bytes. IsBlocked (size - length bytes) (drain size [] l.handle.startup_logs).rest)
            taken (drain-IsBlocked size [] l.handle.startup_logs),
        rw (given, taken) refl,
      )

  unfoldable pub serve : LogStep → Action E (List Reply)
  serve (logged level subsystem message) = do modify (host_log level subsystem message); pure []
  serve (drained size) = do reply ← drain_provider_startup_logs true size true; pure (reply ∷ [])

  unfoldable pub serve_all : List LogStep → Action E (List Reply)
  unfolding serve
  serve_all [] = pure []
  serve_all (step ∷ steps) = do first ← serve step; others ← serve_all steps; pure (first ++ others)

  drained-stuck :
      (size : ℕ) (line : Text) (rest : List Text) (w : World E) (h : Handle E)
      → 0 < size
      → size ≤ length line
      → run
          (serve (drained size))
          (record { world = w; handle = record h { startup_logs = line ∷ rest } })
        ≡ some (
          nothing_drained ∷ [],
          record { world = w; handle = record h { startup_logs = line ∷ rest } },
        )
  unfolding run serve drain_provider_startup_logs terminate
  drained-stuck size line rest w h room long =
      let given : (size == 0) ≡ false = ground arith in
      rw (given, drain-stuck size line rest long, take-nil (size - 1)) refl

  stuck_from :
      (steps : List LogStep) (line : Text) (rest : List Text) (w : World E) (h : Handle E)
      → AreAtMost (length line) steps
      → (replies : List Reply) × (rest' : List Text) × (run
            (serve_all steps)
            (record { world = w; handle = record h { startup_logs = line ∷ rest } })
          ≡ some (
            replies,
            record { world = w; handle = record h { startup_logs = line ∷ (rest ++ rest') } },
          ))
        × All (λ reply. reply ≡ nothing_drained) replies
  unfolding run serve_all pure host_log
  stuck_from [] line rest w h small = (
    [],
    [],
    ap (λ q. some ([], record { world = w; handle = record h { startup_logs = line ∷ q } }))
        (sym (append-nil rest)),
    tt,
  )
  stuck_from (logged level subsystem message ∷ steps) line rest w h small =
      let added = log_line level subsystem message ∷ [] in
      let (replies, rest', e, none_drained) = stuck_from steps line (rest ++ added) w h small in
      (
        replies,
        added ++ rest',
        then_lem (serve_all steps) pure _ _ replies e
            ∙ ap
                (λ q.
                  some
                    (replies, record { world = w; handle = record h { startup_logs = line ∷ q } }))
                (append_assoc rest added rest'),
        none_drained,
      )
  stuck_from (drained size ∷ steps) line rest w h small =
      let (replies, rest', e, none_drained) = stuck_from steps line rest w h small.2 in
      (
        nothing_drained ∷ replies,
        rest',
        then_lem (serve (drained size))
              (λ first. serve_all steps >>= λ others. pure (first ++ others)) _ _
              (nothing_drained ∷ []) (drained-stuck size line rest w h small.0 small.1)
            ∙ then_lem (serve_all steps) (λ others. pure ((nothing_drained ∷ []) ++ others)) _ _
                replies e,
        (refl, none_drained),
      )

  pub serve_all-stuck :
      (steps : List LogStep) (line : Text) (rest : List Text) (l : Local E)
      → l.handle.startup_logs ≡ line ∷ rest
      → AreAtMost (length line) steps
      → (replies : List Reply) × (rest' : List Text) × (run (serve_all steps) l
          ≡ some (
            replies,
            record l { handle = record l.handle { startup_logs = line ∷ (rest ++ rest') } },
          ))
        × All (λ reply. reply ≡ nothing_drained) replies
  serve_all-stuck steps line rest l front small =
      let (replies, rest', e, none_drained) = stuck_from steps line rest l.world l.handle small in
      (
        replies,
        rest',
        ap (λ q. run (serve_all steps) (record l { handle = record l.handle { startup_logs = q } }))
              front
            ∙ e,
        none_drained,
      )
