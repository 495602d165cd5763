-- ===== src/Dispatch/Invariant/State.antt =====
-- The invariant of a live handle inside a call, and how it follows from calmness.
use aether_kiri.Prelude.{
  ℕ, ◌≤◌, ◌≡◌, ◌≢◌, refl, sym, ap, ◌∙◌, subst, Bool, true, false, Option, none, some, List, length,
  Text, is_some, if◌then◌else◌,
}
use aether_kiri.Engine.Provider.{Provider}
use aether_kiri.Engine.Services.{Services}
use aether_kiri.Dispatch.State.{Backend, Handle, World, Local, Action, ◌>>=◌, modify, modify_world}
use aether_kiri.Dispatch.Keeps.{Keeps, Holds, Keeps-modify, Keeps-modify_world}
use aether_kiri.Dispatch.Frame.{Core, core, Calm, IsBounded}

-- The fields of a handle that `Sound` reads.
pub record Parts (E : Type 0) : Type 0 where
  pub requests : List (Text × Text)
  pub legacy : ℕ
  pub media : List ℕ
  pub backend : Backend
  pub provider : Option (Provider E)
  pub runtime : ℕ

module _ {E : Type 0} where
  -- A handle that runs on a provider has one, and a runtime of it.
  pub record IsAlive (b : Backend) (p : Option (Provider E)) (runtime : ℕ) : Type 0 where
    pub given : b ≡ Backend.provider → is_some p ≡ true
    pub created : b ≡ Backend.provider → runtime ≢ 0

  -- Inside a call: the services table is `s`, the other handles are `hs`, the queues are bounded,
  -- and `V` holds of the backend, the provider and the runtime.
  pub record Sound (s : Option (Services E)) (hs : List (ℕ × Handle E))
      (V : Backend → Option (Provider E) → ℕ → Type 0) (l : Local E) : Type 0 where
    pub services : l.world.services ≡ s
    pub handles : l.world.handles ≡ hs
    pub bounded : IsBounded s l.handle
    pub vital : V l.handle.backend l.handle.provider l.handle.runtime

  -- `m` leads from `P` to `Q`, unless it faults.
  pub record Leads {A : Type 0} (P : Local E → Type 0) (m : Action E A) (Q : Local E → Type 0)
      : Type 0 where
    pub at : (l : Local E) → P l → Holds Q (m l)

  Holds-lead :
      (P Q : Local E → Type 0) {A B : Type 0} (r : Option (A × Local E)) (f : A → Action E B)
      → Holds P r
      → ((a : A) → Leads P (f a) Q)
      → Holds Q (elim r [ none ↦ none | some (a, l) ↦ f a l ])
  Holds-lead P Q none f h kf = tt
  Holds-lead P Q (some (a, l)) f h kf = (kf a).at l h

  pub Leads-bind :
      (P Q R : Local E → Type 0) {A B : Type 0} (m : Action E A) (f : A → Action E B)
      → Leads P m Q
      → ((a : A) → Leads Q (f a) R)
      → Leads P (m >>= f) R
  unfolding ◌>>=◌
  Leads-bind P Q R m f km kf = record { at = λ l h. Holds-lead Q R (m l) f (km.at l h) kf }

  pub Leads-Keeps : {A : Type 0} (P : Local E → Type 0) (m : Action E A) → Keeps P m → Leads P m P
  Leads-Keeps P m k = record { at = k.at }

  pub Keeps-Leads : {A : Type 0} (P : Local E → Type 0) (m : Action E A) → Leads P m P → Keeps P m
  Keeps-Leads P m k = record { at = k.at }

  pub Holds-weaken :
      (P Q : Local E → Type 0) {A : Type 0} (r : Option (A × Local E))
      → ((l : Local E) → P l → Q l)
      → Holds P r
      → Holds Q r
  Holds-weaken P Q none f h = tt
  Holds-weaken P Q (some (a, l)) f h = f l h

  -- Strengthen before, weaken after.
  pub Leads-modify :
      (P Q : Local E → Type 0) (f : Handle E → Handle E)
      → ((w : World E) (h : Handle E)
          → P (record { world = w; handle = h })
          → Q (record { world = w; handle = f h }))
      → Leads P (modify f) Q
  unfolding modify
  Leads-modify P Q f k = record { at = λ l h. k l.world l.handle h }

  pub Leads-if :
      (P Q : Local E → Type 0) {A : Type 0} (b : Bool) (m n : Action E A)
      → (b ≡ true → Leads P m Q)
      → (b ≡ false → Leads P n Q)
      → Leads P (if b then m else n) Q
  Leads-if P Q true m n km kn = km refl
  Leads-if P Q false m n km kn = kn refl

  pub Leads-weaken :
      (P Q : Local E → Type 0) {A : Type 0} (m : Action E A)
      → Keeps P m
      → ((l : Local E) → P l → Q l)
      → Leads P m Q
  Leads-weaken P Q m k f = record { at = λ l h. Holds-weaken P Q (m l) f (k.at l h) }

  abbrev pub parts : Handle E → Parts E
  parts h = record {
    requests = h.platform_requests;
    legacy = h.legacy;
    media = h.provider_media_handles;
    backend = h.backend;
    provider = h.provider;
    runtime = h.runtime;
  }

  module _ {s : Option (Services E)} {hs : List (ℕ × Handle E)}
      {V : Backend → Option (Provider E) → ℕ → Type 0} where
    Sound-core : (l l' : Local E) → Sound s hs V l → Calm (core l) l' → Sound s hs V l'
    Sound-core l l' p q = record {
      services = ap (λ (c : Core E). c.services) q.same ∙ p.services;
      handles = ap (λ (c : Core E). c.handles) q.same ∙ p.handles;
      bounded = subst (λ t. IsBounded t l'.handle) p.services q.bounded;
      vital = subst (λ (c : Core E). V c.backend c.provider c.runtime) (sym q.same) p.vital;
    }

    Sound-Calm : (l : Local E) → Sound s hs V l → Calm (core l) l
    Sound-Calm l p = record {
      same = refl;
      bounded = subst (λ t. IsBounded t l.handle) (sym p.services) p.bounded;
    }

    -- What every calm action keeps.
    pub Sound-Keeps :
        {A : Type 0} (m : Action E A) → ((c : Core E) → Keeps (Calm c) m) → Keeps (Sound s hs V) m
    Sound-Keeps m k = record {
      at = λ l p.
          Holds-weaken (Calm (core l)) (Sound s hs V) (m l) (λ l' q. Sound-core l l' p q)
            ((k (core l)).at l (Sound-Calm l p));
    }

    Sound-parts :
        (w : World E) (h h' : Handle E)
        → parts h' ≡ parts h
        → Sound s hs V (record { world = w; handle = h })
        → Sound s hs V (record { world = w; handle = h' })
    Sound-parts w h h' e p = record {
      services = p.services;
      handles = p.handles;
      bounded = record {
        requests = subst (λ (q : Parts E). length q.requests ≤ 256) (sym e) p.bounded.requests;
        no_legacy = λ none. ap (λ (q : Parts E). q.legacy) e ∙ p.bounded.no_legacy none;
        no_media = λ none. ap (λ (q : Parts E). q.media) e ∙ p.bounded.no_media none;
      };
      vital = subst (λ (q : Parts E). V q.backend q.provider q.runtime) (sym e) p.vital;
    }

    pub Sound-modify :
        (f : Handle E → Handle E)
        → ((h : Handle E) → parts (f h) ≡ parts h)
        → Keeps (Sound s hs V) (modify f)
    Sound-modify f e = Keeps-modify f (λ w h p. Sound-parts w h (f h) (e h) p)

    pub Sound-modify_world :
        (f : World E → World E)
        → ((w : World E) → (f w).services ≡ w.services)
        → ((w : World E) → (f w).handles ≡ w.handles)
        → Keeps (Sound s hs V) (modify_world f)
    Sound-modify_world f es eh = Keeps-modify_world f (λ w h p. record {
      services = es w ∙ p.services;
      handles = eh w ∙ p.handles;
      bounded = p.bounded;
      vital = p.vital;
    })

-- The same under another condition on the backend, the provider and the runtime.
pub Sound-vital :
    {E : Type 0} (s : Option (Services E)) (hs : List (ℕ × Handle E))
    (V U : Backend → Option (Provider E) → ℕ → Type 0) (w : World E) (h h' : Handle E)
    → h'.platform_requests ≡ h.platform_requests
    → h'.legacy ≡ h.legacy
    → h'.provider_media_handles ≡ h.provider_media_handles
    → U h'.backend h'.provider h'.runtime
    → Sound s hs V (record { world = w; handle = h })
    → Sound s hs U (record { world = w; handle = h' })
Sound-vital s hs V U w h h' er el em u p = record {
  services = p.services;
  handles = p.handles;
  bounded = record {
    requests = subst (λ (q : List (Text × Text)). length q ≤ 256) (sym er) p.bounded.requests;
    no_legacy = λ none. el ∙ p.bounded.no_legacy none;
    no_media = λ none. em ∙ p.bounded.no_media none;
  };
  vital = u;
}
