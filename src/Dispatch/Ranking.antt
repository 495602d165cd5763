-- ===== src/Dispatch/Ranking.antt =====
-- The ranking of automatic selection (SelectBackendLocked of abi/src/engine_api_dispatch.cpp), as
-- abi/include/engine_runtime_provider.h describes it.
use aether_kiri.Prelude.{
  ◌<◌, ◌≡◌, refl, ◌∙◌, ◌⊎◌, inl, inr, true, false, ℤ, pos, ◌<ℤ◌, ◌≤ℤ◌, leb_ℤ, Option, none, some,
  List, [], ◌∷◌, arith, All, Bool-cases,
}
use mathlib.Core.Option.{some-injective}
use aether_kiri.Dispatch.Select.{Scored, replaces, pick}

not_leb : (m : ℤ) → leb_ℤ m (pos 0) ≡ false → pos 0 <ℤ m
not_leb m h = ground arith

leb_le : (m : ℤ) → leb_ℤ m (pos 0) ≡ true → m ≤ℤ pos 0
leb_le m h = ground arith

module _ {E : Type 0} where
  -- The choice among candidates whose scores are known.
  unfoldable pub choose : List (Scored E) → Option (Scored E) → Option (Scored E)
  choose [] best = best
  choose (c ∷ cs) best = choose cs (pick c best)

  -- A higher score, then a higher priority, then an earlier registration.
  abbrev pub Beats : Scored E → Scored E → Type 0
  Beats (a, m) (b, n) =
      (n <ℤ m)
      ⊎ ((n ≤ℤ m)
          × (m ≤ℤ n)
          × ((b.api.priority <ℤ a.api.priority)
              ⊎ ((b.api.priority ≤ℤ a.api.priority)
                  × (a.api.priority ≤ℤ b.api.priority)
                  × (a.registration_order < b.registration_order))))

  -- The candidate is no better than the choice; a score of 0 or less is none.
  abbrev pub IsRanked : Option (Scored E) → Scored E → Type 0
  IsRanked none c = c.1 ≤ℤ pos 0
  IsRanked (some best) c = (c.1 ≤ℤ pos 0) ⊎ (¬ (Beats c best))

  abbrev pub IsPositive : Option (Scored E) → Type 0
  IsPositive none = Unit
  IsPositive (some c) = pos 0 <ℤ c.1

  replaces-Beats : (c s : Scored E) → replaces c s ≡ true → Beats c s
  unfolding replaces
  replaces-Beats (c, m) (s, n) h = ground arith

  replaces_not : (c s : Scored E) → replaces c s ≡ false → ¬ (Beats c s)
  unfolding replaces
  replaces_not (c, m) (s, n) h = ground arith

  Beats-irrefl : (c : Scored E) → ¬ (Beats c c)
  Beats-irrefl (c, m) = ground arith

  Beats-trans : (c d e : Scored E) → Beats c d → Beats d e → Beats c e
  Beats-trans (c, m) (d, n) (e, k) h g = ground arith

  pick-IsPositive :
      (c : Scored E) (best : Option (Scored E)) → IsPositive best → IsPositive (pick c best)
  unfolding pick
  pick-IsPositive c none h = elim (Bool-cases (leb_ℤ c.1 (pos 0))) [
    | inl e ↦ rw e tt
    | inr e ↦ rw e (not_leb c.1 e)
  ]
  pick-IsPositive c (some best) h = elim (Bool-cases (leb_ℤ c.1 (pos 0))) [
    | inl e ↦ rw e h
    | inr e ↦ elim (Bool-cases (replaces c best)) [
      | inl r ↦ rw e (rw r (not_leb c.1 e))
      | inr r ↦ rw e (rw r h)
    ]
  ]

  pick-IsRanked : (c : Scored E) (best : Option (Scored E)) → IsRanked (pick c best) c
  unfolding pick
  pick-IsRanked c none = elim (Bool-cases (leb_ℤ c.1 (pos 0))) [
    | inl e ↦ rw e (leb_le c.1 e)
    | inr e ↦ rw e (inr (Beats-irrefl c))
  ]
  pick-IsRanked c (some best) = elim (Bool-cases (leb_ℤ c.1 (pos 0))) [
    | inl e ↦ rw e (inl (leb_le c.1 e))
    | inr e ↦ elim (Bool-cases (replaces c best)) [
      | inl r ↦ rw e (rw r (inr (Beats-irrefl c)))
      | inr r ↦ rw e (rw r (inr (replaces_not c best r)))
    ]
  ]

  IsRanked-replaced :
      (c d best : Scored E) → replaces c best ≡ true → IsRanked (some best) d → IsRanked (some c) d
  IsRanked-replaced c d best r (inl low) = inl low
  IsRanked-replaced c d best r (inr not_better) =
      inr (λ b. not_better (Beats-trans d c best b (replaces-Beats c best r)))

  -- A candidate that the choice has passed over stays passed over.
  pick-keeps :
      (c d : Scored E) (best : Option (Scored E)) → IsRanked best d → IsRanked (pick c best) d
  unfolding pick
  pick-keeps c d none h = elim (Bool-cases (leb_ℤ c.1 (pos 0))) [
    | inl e ↦ rw e h
    | inr e ↦ rw e (inl h)
  ]
  pick-keeps c d (some best) h = elim (Bool-cases (leb_ℤ c.1 (pos 0))) [
    | inl e ↦ rw e h
    | inr e ↦ elim (Bool-cases (replaces c best)) [
      | inl r ↦ rw e (rw r (IsRanked-replaced c d best r h))
      | inr r ↦ rw e (rw r h)
    ]
  ]

  choose-keeps :
      (cs : List (Scored E)) (d : Scored E) (best : Option (Scored E))
      → IsRanked best d
      → IsRanked (choose cs best) d
  unfolding choose
  choose-keeps [] d best h = h
  choose-keeps (c ∷ cs) d best h = choose-keeps cs d (pick c best) (pick-keeps c d best h)

  -- No candidate with a positive score beats the one that is chosen: none has a higher score, or as
  -- high a score and a higher priority, or both as high and an earlier registration. If none is
  -- chosen, no score is positive.
  pub choose-IsRanked :
      (cs : List (Scored E)) (best : Option (Scored E)) → All (IsRanked (choose cs best)) cs
  unfolding choose
  choose-IsRanked [] best = tt
  choose-IsRanked (c ∷ cs) best =
      (choose-keeps cs c (pick c best) (pick-IsRanked c best), choose-IsRanked cs (pick c best))

  pub choose-IsPositive :
      (cs : List (Scored E)) (best : Option (Scored E))
      → IsPositive best
      → IsPositive (choose cs best)
  unfolding choose
  choose-IsPositive [] best h = h
  choose-IsPositive (c ∷ cs) best h = choose-IsPositive cs (pick c best) (pick-IsPositive c best h)

  abbrev Among : Scored E → List (Scored E) → Type 0
  Among c [] = ⊥
  Among c (d ∷ ds) = (c ≡ d) ⊎ Among c ds

  -- The choice is one of the candidates or what it was before.
  abbrev FromThese : Option (Scored E) → Option (Scored E) → List (Scored E) → Type 0
  FromThese none best cs = Unit
  FromThese (some c) best cs = (some c ≡ best) ⊎ Among c cs

  pick-keeps_or_takes :
      (c : Scored E) (best : Option (Scored E)) → (pick c best ≡ best) ⊎ (pick c best ≡ some c)
  unfolding pick
  pick-keeps_or_takes c none = elim (Bool-cases (leb_ℤ c.1 (pos 0))) [
    | inl e ↦ rw e (inl refl)
    | inr e ↦ rw e (inr refl)
  ]
  pick-keeps_or_takes c (some best) = elim (Bool-cases (leb_ℤ c.1 (pos 0))) [
    | inl e ↦ rw e (inl refl)
    | inr e ↦ elim (Bool-cases (replaces c best)) [
      | inl r ↦ rw e (rw r (inr refl))
      | inr r ↦ rw e (rw r (inl refl))
    ]
  ]

  FromThese-step :
      (o : Option (Scored E)) (c : Scored E) (best : Option (Scored E)) (cs : List (Scored E))
      → (pick c best ≡ best) ⊎ (pick c best ≡ some c)
      → FromThese o (pick c best) cs
      → FromThese o best (c ∷ cs)
  FromThese-step none c best cs p h = tt
  FromThese-step (some d) c best cs (inl kept) (inl e) = inl (e ∙ kept)
  FromThese-step (some d) c best cs (inr taken) (inl e) = inr (inl (some-injective d c (e ∙ taken)))
  FromThese-step (some d) c best cs p (inr among) = inr (inr among)

  choose-FromThese :
      (cs : List (Scored E)) (best : Option (Scored E)) → FromThese (choose cs best) best cs
  unfolding choose
  choose-FromThese [] none = tt
  choose-FromThese [] (some c) = inl refl
  choose-FromThese (c ∷ cs) best =
      FromThese-step (choose cs (pick c best)) c best cs (pick-keeps_or_takes c best)
        (choose-FromThese cs (pick c best))

  -- One of the candidates, with a positive score.
  abbrev pub IsCandidate : Option (Scored E) → List (Scored E) → Type 0
  IsCandidate none cs = Unit
  IsCandidate (some c) cs = Among c cs × (pos 0 <ℤ c.1)

  FromThese-IsCandidate :
      (o : Option (Scored E)) (cs : List (Scored E))
      → FromThese o none cs
      → IsPositive o
      → IsCandidate o cs
  FromThese-IsCandidate none cs f p = tt
  FromThese-IsCandidate (some c) cs (inl e) p = cc
  FromThese-IsCandidate (some c) cs (inr among) p = (among, p)

  -- What is chosen is one of the candidates, and its score is positive.
  pub choose-IsCandidate : (cs : List (Scored E)) → IsCandidate (choose cs none) cs
  choose-IsCandidate cs =
      FromThese-IsCandidate (choose cs none) cs (choose-FromThese cs none)
        (choose-IsPositive cs none tt)
