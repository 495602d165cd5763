-- ===== src/Dispatch/Release.antt =====
-- engine_destroy of abi/src/engine_api_dispatch.cpp: the handle that goes, the others, and later calls
-- with the handle.
use aether_kiri.Prelude.{
  ℕ, ◌≡◌, ◌≢◌, refl, ◌∙◌, ap, false, Option, none, some, arith, text, lookup, lookup-remove, remove,
  nat_key, ◌==◌, ==_refl, Bool-cases, inl, inr, if◌then◌else◌,
}
use aether_kiri.Engine.Calls.{Result, Reply}
use aether_kiri.Dispatch.State.{Handle, World, Local}
use aether_kiri.Dispatch.Route.{reject}
use aether_kiri.Dispatch.Lifecycle.{owned_by, not_owned_by, destroy_body, engine_destroy, release}
use aether_kiri.Dispatch.Keeps.{Holds}
use aether_kiri.Dispatch.Invariant.State.{Sound}
use aether_kiri.Dispatch.Invariant.Destroy.{Going, destroy_body-Sound}
use aether_kiri.Dispatch.Invariant.Api.{Intact, Reaches}

module _ {E : Type 0} where
  -- The handle is gone, and every other address is live or not as before.
  pub record IsWithout (a : ℕ) (w w' : World E) : Type 0 where
    pub gone : lookup a w'.handles ≡ none
    pub others : (b : ℕ) → b ≢ a → lookup b w'.handles ≡ lookup b w.handles

  removed_self : (a : ℕ) (o : Option (Handle E)) → (if a == a then none else o) ≡ none
  removed_self a o = rw (==_refl a) refl

  removed_other : (a b : ℕ) (o : Option (Handle E)) → b ≢ a → (if a == b then none else o) ≡ o
  removed_other a b o ne = let other : (a == b) ≡ false = ground arith in rw other refl

  released-IsWithout :
      (a : ℕ) (w : World E) (r : Option (Result × Local E))
      → Holds (Sound w.services (remove a w.handles) Going) r
      → Reaches (IsWithout a w) (release r)
  released-IsWithout a w none p = tt
  released-IsWithout a w (some (r, l)) p = record {
    gone = ap (lookup a) p.handles ∙ lookup-remove a a w.handles ∙ removed_self a _;
    others = λ b ne. ap (lookup b) p.handles ∙ lookup-remove a b w.handles ∙ removed_other a b _ ne;
  }

  same-IsWithout :
      (a : ℕ) (w w' : World E)
      → w'.handles ≡ w.handles
      → lookup a w.handles ≡ none
      → IsWithout a w w'
  same-IsWithout a w w' e n = record {
    gone = ap (lookup a) e ∙ n;
    others = λ b ne. ap (lookup b) e;
  }

  destroyed-IsWithout :
      (a : ℕ) (w : World E) (o : Option (Handle E))
      → lookup a w.handles ≡ o
      → Intact w
      → Reaches (IsWithout a w) (elim o [
        | none ↦
            reject Result.invalid_argument (text "engine handle is invalid or already destroyed") w
        | some h ↦ release (
            destroy_body (owned_by a w.media_handles) (record {
              world = record w {
                handles = remove a w.handles;
                media_handles = not_owned_by a w.media_handles;
              };
              handle = h;
            }))
      ])
  destroyed-IsWithout a w none e i = same-IsWithout a w _ refl e
  destroyed-IsWithout a w (some h) e i = released-IsWithout a w _ (
      (destroy_body-Sound (owned_by a w.media_handles)).at _
        (record { services = refl; handles = refl; bounded = (i.live a h e).bounded; vital = tt }))

  -- Destroying a handle, live or not, leaves it not live and every other handle as it was, whatever
  -- the startup thread, the provider and the KiriKiri engine do meanwhile, unless the call faults.
  pub engine_destroy-IsWithout :
      (a : ℕ) (w : World E) → Intact w → Reaches (IsWithout a w) (engine_destroy a w)
  unfolding engine_destroy
  engine_destroy-IsWithout a w i = elim (Bool-cases (a == 0)) [
    | inl e ↦ rw e (
        same-IsWithout a w _ refl
          (let null : a ≡ 0 = ground arith in ap (λ b. lookup b w.handles) null ∙ i.no_null))
    | inr e ↦ rw e (destroyed-IsWithout a w (lookup a w.handles) refl i)
  ]

  pub Reaches-weaken :
      (P Q : World E → Type 0) (r : Option (Reply × World E))
      → ((w : World E) → P w → Q w)
      → Reaches P r
      → Reaches Q r
  Reaches-weaken P Q none f h = tt
  Reaches-weaken P Q (some (r, w)) f h = f w h
