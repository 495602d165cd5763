-- ===== src/Dispatch/Invariant/Api.antt =====
-- The invariant of the whole state, and the rules for the functions of the API.
use aether_kiri.Prelude.{
  ℕ, ◌≡◌, refl, sym, ◌∙◌, subst, text, Bool, true, false, Option, none, some, List, Text, arith,
  lookup, lookup-insert, lookup-remove, insert, remove, nat_key, ◌==◌, Bool-cases, inl, inr,
  if◌then◌else◌,
}
use mathlib.Core.Option.{some-injective}
use aether_kiri.Engine.Calls.{Result, Reply, Call}
use aether_kiri.Engine.Services.{Services}
use aether_kiri.Dispatch.State.{Handle, World, Local, Action}
use aether_kiri.Dispatch.Route.{Api, reject, store, locked, route_body, route, forward}
use aether_kiri.Dispatch.Keeps.{Keeps, Holds}
use aether_kiri.Dispatch.Frame.{IsBounded}
use aether_kiri.Dispatch.Invariant.State.{IsAlive, Sound}
use aether_kiri.Dispatch.Invariant.Rules.{call_member-Sound, route_body-Sound}

module _ {E : Type 0} where
  -- The queue of a live handle is bounded; it has nothing of the KiriKiri engine without the services
  -- table; and on a provider it has the provider and a runtime.
  pub record IsLive (s : Option (Services E)) (h : Handle E) : Type 0 where
    pub bounded : IsBounded s h
    pub alive : IsAlive h.backend h.provider h.runtime

  -- A null pointer is no live handle.
  pub record IsIntact (s : Option (Services E)) (hs : List (ℕ × Handle E)) : Type 0 where
    pub no_null : lookup 0 hs ≡ none
    pub live : (a : ℕ) (h : Handle E) → lookup a hs ≡ some h → IsLive s h

  abbrev pub Intact : World E → Type 0
  Intact w = IsIntact w.services w.handles

  abbrev pub Reaches : {A : Type 0} → (World E → Type 0) → Option (A × World E) → Type 0
  Reaches P none = Unit
  Reaches P (some (a, w)) = P w

  -- A call that leads from intact states to intact ones.
  pub record Safe (f : Api E) : Type 0 where
    pub at : (w : World E) → Intact w → Reaches Intact (f w)

  -- A body that keeps the invariant, whatever the table and the other handles.
  abbrev pub IsSteady : Action E Reply → Type 0
  IsSteady body =
      (s : Option (Services E)) (hs : List (ℕ × Handle E)) → Keeps (Sound s hs IsAlive) body

  insert-IsLive :
      (s : Option (Services E)) (hs : List (ℕ × Handle E)) (a j : ℕ) (h k : Handle E) (b : Bool)
      → IsIntact s hs
      → IsLive s h
      → (if b then some h else lookup j hs) ≡ some k
      → IsLive s k
  insert-IsLive s hs a j h k true i l e = subst (IsLive s) (some-injective h k e) l
  insert-IsLive s hs a j h k false i l e = i.live j k e

  pub insert-IsIntact :
      (s : Option (Services E)) (hs : List (ℕ × Handle E)) (a : ℕ) (h : Handle E)
      → (a == 0) ≡ false
      → IsIntact s hs
      → IsLive s h
      → IsIntact s (insert a h hs)
  insert-IsIntact s hs a h e i l = record {
    no_null = rw (lookup-insert a 0 h hs) (rw e i.no_null);
    live =
        λ j k found. insert-IsLive s hs a j h k (a == j) i l (sym (lookup-insert a j h hs) ∙ found);
  }

  remove-IsLive :
      (s : Option (Services E)) (hs : List (ℕ × Handle E)) (j : ℕ) (k : Handle E) (b : Bool)
      → IsIntact s hs
      → (if b then none else lookup j hs) ≡ some k
      → IsLive s k
  remove-IsLive s hs j k true i e = cc
  remove-IsLive s hs j k false i e = i.live j k e

  pub remove-IsIntact :
      (s : Option (Services E)) (hs : List (ℕ × Handle E)) (a : ℕ)
      → IsIntact s hs
      → IsIntact s (remove a hs)
  remove-IsIntact s hs a i = record {
    no_null = rw (lookup-remove a 0 hs) (ground (arith, i.no_null));
    live = λ j k found. remove-IsLive s hs j k (a == j) i (sym (lookup-remove a j hs) ∙ found);
  }

  store-Intact :
      (s : Option (Services E)) (hs : List (ℕ × Handle E)) (a : ℕ) (r : Option (Reply × Local E))
      → (a == 0) ≡ false
      → IsIntact s hs
      → Holds (Sound s hs IsAlive) r
      → Reaches Intact (store a r)
  store-Intact s hs a none e i p = tt
  store-Intact s hs a (some (r, l)) e i p =
      insert-IsIntact l.world.services l.world.handles a l.handle e
        (subst (λ t. IsIntact t l.world.handles) (sym p.services)
          (subst (IsIntact s) (sym p.handles) i))
        (record {
          bounded = subst (λ t. IsBounded t l.handle) (sym p.services) p.bounded;
          alive = p.vital;
        })

  live_Sound :
      (w : World E) (h : Handle E)
      → IsLive w.services h
      → Sound w.services w.handles IsAlive (record { world = w; handle = h })
  live_Sound w h l = record {
    services = refl;
    handles = refl;
    bounded = l.bounded;
    vital = l.alive;
  }

  pub reject-Safe : (r : Result) (m : Text) → Safe (reject r m)
  reject-Safe r m = record { at = λ w i. i }

  locked-found :
      (a : ℕ) (body : Action E Reply) (w : World E) (o : Option (Handle E))
      → (a == 0) ≡ false
      → lookup a w.handles ≡ o
      → IsSteady body
      → Intact w
      → Reaches Intact (elim o [
        | none ↦
            reject Result.invalid_argument (text "engine handle is invalid or already destroyed") w
        | some h ↦ store a (body (record { world = w; handle = h }))
      ])
  locked-found a body w none e found k i = i
  locked-found a body w (some h) e found k i =
      store-Intact w.services w.handles a (body (record { world = w; handle = h })) e i
        ((k w.services w.handles).at _ (live_Sound w h (i.live a h found)))

  pub locked-Safe : (a : ℕ) (body : Action E Reply) → IsSteady body → Safe (locked a body)
  unfolding locked
  locked-Safe a body k = record {
    at = λ w i. elim (Bool-cases (a == 0)) [
      | inl e ↦ rw e i
      | inr e ↦ rw e (locked-found a body w (lookup a w.handles) e refl k i)
    ];
  }

  pub route-Safe :
      (a : ℕ) (operation : Text) (f : Services E → E → ℕ → E × Reply) (body : Action E Reply)
      → IsSteady body
      → Safe (route a operation f body)
  unfolding route
  route-Safe a operation f body k =
      locked-Safe a (route_body operation f body)
        (λ s hs. route_body-Sound operation f body (k s hs))

  pub forward-Safe : (a : ℕ) (operation : Text) (c : Call) → Safe (forward a operation c)
  unfolding forward
  forward-Safe a operation c = route-Safe a operation _ _ (λ s hs. call_member-Sound _ _)

  -- A guard before the call.
  pub guard-Safe : (b : Bool) (f g : Api E) → Safe f → Safe g → Safe (if b then f else g)
  guard-Safe true f g sf sg = sf
  guard-Safe false f g sf sg = sg
