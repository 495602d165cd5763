-- ===== src/Dispatch/Keeps.antt =====
-- Invariants of actions, one rule for each way to build an action.
use aether_kiri.Prelude.{◌≡◌, refl, Bool, true, false, Option, none, some, if◌then◌else◌}
use aether_kiri.Dispatch.State.{
  Handle, World, Local, Action, pure, ◌>>=◌, gets, asks, modify, modify_world, outside, deref,
}

module _ {E : Type 0} where
  -- `P` after a run, unless it faulted.
  abbrev pub Holds : {A : Type 0} → (Local E → Type 0) → Option (A × Local E) → Type 0
  Holds P none = Unit
  Holds P (some (a, l)) = P l

  pub record Keeps {A : Type 0} (P : Local E → Type 0) (m : Action E A) : Type 0 where
    pub at : (l : Local E) → P l → Holds P (m l)

  pub Holds-then :
      (P : Local E → Type 0) {A B : Type 0} (r : Option (A × Local E))
      (k : A → Local E → Option (B × Local E))
      → Holds P r
      → ((a : A) (l : Local E) → P l → Holds P (k a l))
      → Holds P (elim r [ none ↦ none | some (a, l) ↦ k a l ])
  Holds-then P none k h next = tt
  Holds-then P (some (a, l)) k h next = next a l h

  pub Holds-deref :
      (P : Local E → Type 0) {A B : Type 0} (o : Option A) (f : A → Action E B) (l : Local E)
      → ((s : A) → o ≡ some s → Holds P (f s l))
      → Holds P ((deref o >>= f) l)
  unfolding ◌>>=◌ deref
  Holds-deref P none f l k = tt
  Holds-deref P (some s) f l k = k s refl

  module _ {P : Local E → Type 0} where
    pub Keeps-pure : {A : Type 0} (a : A) → Keeps P (pure a)
    unfolding pure
    Keeps-pure a = record { at = λ l h. h }

    pub Keeps-gets : {A : Type 0} (f : Handle E → A) → Keeps P (gets f)
    unfolding gets
    Keeps-gets f = record { at = λ l h. h }

    pub Keeps-asks : {A : Type 0} (f : World E → A) → Keeps P (asks f)
    unfolding asks
    Keeps-asks f = record { at = λ l h. h }

    pub Keeps-deref : {A : Type 0} (o : Option A) → Keeps P (deref o)
    unfolding deref
    Keeps-deref none = record { at = λ l h. tt }
    Keeps-deref (some a) = record { at = λ l h. h }

    Holds-bind :
        {A B : Type 0} (r : Option (A × Local E)) (f : A → Action E B)
        → Holds P r
        → ((a : A) → Keeps P (f a))
        → Holds P (elim r [ none ↦ none | some (a, l') ↦ f a l' ])
    Holds-bind none f h kf = tt
    Holds-bind (some (a, l')) f h kf = (kf a).at l' h

    pub Keeps-bind :
        {A B : Type 0} (m : Action E A) (f : A → Action E B)
        → Keeps P m
        → ((a : A) → Keeps P (f a))
        → Keeps P (m >>= f)
    unfolding ◌>>=◌
    Keeps-bind m f km kf = record { at = λ l h. Holds-bind (m l) f (km.at l h) kf }

    pub Keeps-if :
        {A : Type 0} (b : Bool) (m n : Action E A)
        → Keeps P m
        → Keeps P n
        → Keeps P (if b then m else n)
    Keeps-if true m n km kn = km
    Keeps-if false m n km kn = kn

    pub Keeps-modify :
        (f : Handle E → Handle E)
        → ((w : World E) (h : Handle E)
            → P (record { world = w; handle = h })
            → P (record { world = w; handle = f h }))
        → Keeps P (modify f)
    unfolding modify
    Keeps-modify f k = record { at = λ l h. k l.world l.handle h }

    pub Keeps-modify_world :
        (f : World E → World E)
        → ((w : World E) (h : Handle E)
            → P (record { world = w; handle = h })
            → P (record { world = f w; handle = h }))
        → Keeps P (modify_world f)
    unfolding modify_world
    Keeps-modify_world f k = record { at = λ l h. k l.world l.handle h }

    pub Keeps-outside :
        {A : Type 0} (f : E → E × A)
        → ((w : World E) (h : Handle E) (env : E)
            → P (record { world = w; handle = h })
            → P (record { world = record w { env = env }; handle = h }))
        → Keeps P (outside f)
    unfolding outside
    Keeps-outside f k = record { at = λ l h. k l.world l.handle (f l.world.env).0 h }

pub ruleset keeps_rules = (Keeps-pure, Keeps-gets, Keeps-asks, Keeps-deref, Keeps-if, Keeps-bind)
