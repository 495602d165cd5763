-- ===== src/Stub/Drain.antt =====
-- engine_drain_diagnostic_events of abi/src/engine_api_stub.cpp: what the buffer receives and what
-- stays in the queue.
use aether_kiri.Prelude.{
  ℕ, ◌+◌, ◌≤◌, ◌<◌, ◌^◌, ◌≡◌, refl, sym, append-nil, ◌∙◌, ap, List, [], ◌∷◌, ◌++◌, Text, arith, leb,
  length, length-append, append_assoc, Bool-cases, inl, inr, All,
}
use aether_kiri.Dispatch.Logs.{joined}
use aether_kiri.Stub.Diagnostics.{Drained, drain_events, end_of}

-- With the buffer's size, the line stays below 4 GiB, so that the sums do not wrap.
abbrev pub FitsWord : ℕ → Text → Type 0
FitsWord size line = size + length line + 1 < 2 ^ 32

-- The bytes after a drain, with their terminator, stay in the buffer; they are those before and whole
-- events from the front of the queue, each with its newline; no event is lost, repeated or reordered, and the first event that stays does not fit in front of a terminator.
pub record IsDrained (size : ℕ) (bytes : Text) (lines : List Text) (d : Drained) : Type 0 where
  pub fits : length d.bytes + 1 ≤ size
  pub taken :
      (written : List Text) × (lines ≡ written ++ d.rest) × (d.bytes ≡ bytes ++ joined written)
  pub whole : d.bytes ++ joined d.rest ≡ bytes ++ joined lines
  pub full :
      (line : Text) (rest : List Text)
      → d.rest ≡ line ∷ rest
      → size < length d.bytes + length line + 2

end_of_lem :
    (size : ℕ) (bytes line : Text)
    → length bytes < size
    → FitsWord size line
    → end_of bytes line ≡ length bytes + (length line + 1)
end_of_lem size bytes line h w = omega arith

no_line : {line : Text} {rest : List Text} → [] ≡ line ∷ rest → ⊥
no_line p = cc

front : {line line' : Text} {rest rest' : List Text} → line ∷ rest ≡ line' ∷ rest' → line ≡ line'
front p = cc

length-step :
    (bytes line : Text) → length (bytes ++ (line ++ b'\n' ∷ [])) ≡ length bytes + (length line + 1)
length-step bytes line =
    omega (arith, length-append bytes (line ++ b'\n' ∷ []), length-append line (b'\n' ∷ []))

-- Draining into a buffer with room for a terminator at least, as long as every event is short enough
-- for 32-bit sums: the bytes written and their terminator stay in the buffer; what is written are
-- whole events from the front of the queue, each with its newline, and the other events stay; and the
-- first event that stays does not fit in front of a terminator.
pub drain_events-IsDrained :
    (size : ℕ) (bytes : Text) (lines : List Text)
    → length bytes < size
    → All (FitsWord size) lines
    → IsDrained size bytes lines (drain_events size bytes lines)
unfolding drain_events joined
drain_events-IsDrained size bytes [] h w = record {
  fits = omega arith;
  taken = ([], refl, sym (append-nil bytes));
  whole = refl;
  full = λ line rest p. absurd (no_line p);
}
drain_events-IsDrained size bytes (line ∷ lines) h w =
    elim (Bool-cases (leb size (end_of bytes line))) [
      | inl e ↦ rw e (record {
        fits = omega arith;
        taken = ([], refl, sym (append-nil bytes));
        whole = refl;
        full =
            λ line' rest p. ground (arith, end_of_lem size bytes line h w.0, ap length (front p));
      })
      | inr e ↦
          let r =
            drain_events-IsDrained size (bytes ++ (line ++ b'\n' ∷ [])) lines
              (ground (arith, end_of_lem size bytes line h w.0, length-step bytes line)) w.1 in
          rw e (record {
            fits = r.fits;
            taken = (
              line ∷ r.taken.0,
              ap (λ x. line ∷ x) r.taken.1,
              r.taken.2 ∙ append_assoc bytes (line ++ b'\n' ∷ []) (joined r.taken.0),
            );
            whole = r.whole ∙ append_assoc bytes (line ++ b'\n' ∷ []) (joined lines);
            full = r.full;
          })
    ]
