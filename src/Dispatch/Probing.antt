-- ===== src/Dispatch/Probing.antt =====
-- The loop of the automatic selection (SelectBackendLocked of abi/src/engine_api_dispatch.cpp) beside
-- its two parts: probing all candidates, and choosing.
use aether_kiri.Prelude.{
  ◌≡◌, refl, ◌∙◌, Bool, true, false, ℤ, Option, none, some, List, [], ◌∷◌, Text, if◌then◌else◌,
}
use aether_kiri.Registry.{Registered}
use aether_kiri.Dispatch.State.{Local, Action, pure, ◌>>=◌, run}
use aether_kiri.Dispatch.Select.{Scored, pick, probe_candidate, consider, select_auto}
use aether_kiri.Dispatch.Ranking.{choose}

module _ {E : Type 0} where
  -- Every candidate that is not the built-in one, with the score of its probe.
  unfoldable pub probe_all : Text → List (Registered E) → Action E (List (Scored E))
  probe_all path [] = pure []
  probe_all path (c ∷ cs) =
      if c.is_legacy_builtin
      then probe_all path cs
      else do score ← probe_candidate c path; rest ← probe_all path cs; pure ((c, score) ∷ rest)

  -- The choice after the probes.
  abbrev pub choose_after :
      Option (Scored E) → Option (List (Scored E) × Local E) → Option (Option (Scored E) × Local E)
  choose_after best none = none
  choose_after best (some (scored, l)) = some (choose scored best, l)

  choose_after-cons :
      (c : Scored E) (best : Option (Scored E)) (r : Option (List (Scored E) × Local E))
      → choose_after (pick c best) r
        ≡ choose_after best (elim r [ none ↦ none | some (rest, l) ↦ some (c ∷ rest, l) ])
  unfolding choose
  choose_after-cons c best none = refl
  choose_after-cons c best (some (rest, l)) = refl

  -- An action whose run is known.
  abbrev replay : {A : Type 0} → Option (A × Local E) → Action E A
  replay r l = r

  probed_lem :
      (path : Text) (c : Registered E) (cs : List (Registered E)) (best : Option (Scored E))
      (l : Local E) (r : Option (ℤ × Local E))
      → ((b : Option (Scored E)) (l : Local E)
          → run (select_auto path cs b) l ≡ choose_after b (run (probe_all path cs) l))
      → run ((replay r >>= λ score. pure (pick (c, score) best)) >>= select_auto path cs) l
        ≡ choose_after best
            (run (replay r >>= λ score. probe_all path cs >>= λ rest. pure ((c, score) ∷ rest)) l)
  unfolding run ◌>>=◌ pure
  probed_lem path c cs best l none ih = refl
  probed_lem path c cs best l (some (score, l')) ih =
      ih (pick (c, score) best) l' ∙ choose_after-cons (c, score) best (run (probe_all path cs) l')

  considered_lem :
      (path : Text) (c : Registered E) (cs : List (Registered E)) (best : Option (Scored E))
      (l : Local E) (builtin : Bool)
      → ((b : Option (Scored E)) (l : Local E)
          → run (select_auto path cs b) l ≡ choose_after b (run (probe_all path cs) l))
      → run
          ((if builtin
              then pure best
              else (probe_candidate c path >>= λ score. pure (pick (c, score) best)))
            >>= select_auto path cs)
          l
        ≡ choose_after best (
            run
              (if builtin
                then probe_all path cs
                else (probe_candidate c path >>= λ score.
                    probe_all path cs >>= λ rest. pure ((c, score) ∷ rest)))
              l)
  unfolding run ◌>>=◌ pure
  considered_lem path c cs best l true ih = ih best l
  considered_lem path c cs best l false ih =
      probed_lem path c cs best l (probe_candidate c path l) ih

  -- The loop of the automatic selection, which probes and compares in turn, has the same result and
  -- leaves the same state as probing every candidate first and then choosing; it faults on the same
  -- states.
  pub select_auto_lem :
      (path : Text) (cs : List (Registered E)) (best : Option (Scored E)) (l : Local E)
      → run (select_auto path cs best) l ≡ choose_after best (run (probe_all path cs) l)
  unfolding select_auto consider probe_all run choose
  select_auto_lem path [] best l = refl
  select_auto_lem path (c ∷ cs) best l =
      considered_lem path c cs best l c.is_legacy_builtin (λ b l'. select_auto_lem path cs b l')
