-- ===== src/Dispatch/Invariant/Calls.antt =====
-- The invariant through the calls that install, register, create, destroy, pause and resume.
use aether_kiri.Prelude.{
  ℕ, ◌≡◌, refl, sym, subst, Bool, true, false, not, Option, none, some, List, Text, text, arith,
  ltb, lookup, remove, nat_key, ◌==◌, Bool-cases, inl, inr,
}
use aether_kiri.Engine.Calls.{
  Result, Reply, CreateDesc, Call, MediaCall, create_desc_size, engine_api_version, major,
}
use aether_kiri.Engine.Provider.{Provider}
use aether_kiri.Engine.Services.{Services}
use aether_kiri.Dispatch.State.{Handle, World, Local, Action}
use aether_kiri.Dispatch.Route.{reject, locked, route}
use aether_kiri.Dispatch.Lifecycle.{
  is_complete_table, install_over, engine_install_legacy_services, register_all, register_private,
  new_handle, allocate_handle, create_checked, engine_create, owned_by, not_owned_by, destroy_body,
  engine_destroy, release,
}
use aether_kiri.Dispatch.Run.{pause_provider, resume_provider, engine_pause, engine_resume}
use aether_kiri.Dispatch.Media.{with_owner, route_media}
use aether_kiri.Dispatch.Api.{install, register}
use aether_kiri.Dispatch.Keeps.{Holds}
use aether_kiri.Dispatch.Invariant.State.{Sound}
use aether_kiri.Dispatch.Invariant.Requests.{
  pause_provider-Sound, resume_provider-Sound, route_media-Sound,
}
use aether_kiri.Dispatch.Invariant.Destroy.{Going, destroy_body-Sound}
use aether_kiri.Dispatch.Invariant.Api.{
  IsLive, IsIntact, Intact, Reaches, Safe, IsSteady, insert-IsIntact, remove-IsIntact, reject-Safe,
  locked-Safe, route-Safe, guard-Safe,
}

module _ {E : Type 0} where
  installed-IsLive : (t : Services E) (h : Handle E) → IsLive none h → IsLive (some t) h
  installed-IsLive t h l = record {
    bounded = record { requests = l.bounded.requests; no_legacy = λ e. cc; no_media = λ e. cc };
    alive = l.alive;
  }

  install_over-Intact :
      (o : Option (Services E)) (t : Services E) (w : World E)
      → w.services ≡ o
      → Intact w
      → Intact (install_over o t w).1
  unfolding install_over
  install_over-Intact none t w e i = record {
    no_null = i.no_null;
    live = λ a h found. installed-IsLive t h (subst (λ s. IsLive s h) e (i.live a h found));
  }
  install_over-Intact (some current) t w e i = i

  pub install-Safe : (t : Option (Services E)) → Safe (install t)
  unfolding install engine_install_legacy_services
  install-Safe none = record { at = λ w i. i }
  install-Safe (some t) = record {
    at = λ w i. elim (Bool-cases (not (is_complete_table t))) [
      | inl e ↦ rw e i
      | inr e ↦ rw e (install_over-Intact w.services t w refl i)
    ];
  }

  pub register-Safe : (p : Option (Provider E)) → Safe (register p)
  unfolding register
  register-Safe p = record { at = λ w i. i }

  private_Intact : (w : World E) → Intact w → Intact (register_private w)
  unfolding register_private
  private_Intact w i = by_services w.services
    where
      by_providers :
          (o : Option (List (Provider E)))
          → Intact (elim o [
            | none ↦ w
            | some providers ↦ record w {
              registry = register_all w.os w.build.artemis_enabled providers w.registry;
            }
          ])
      by_providers none = i
      by_providers (some providers) = i

      by_services :
          (o : Option (Services E))
          → Intact (elim o [
            | none ↦ w
            | some s ↦ elim s.register_private_runtimes [
              | none ↦ w
              | some providers ↦ record w {
                registry = register_all w.os w.build.artemis_enabled providers w.registry;
              }
            ]
          ])
      by_services none = i
      by_services (some s) = by_providers s.register_private_runtimes

  new_handle-IsLive :
      (s : Option (Services E)) (desc : CreateDesc) (w : World E) → IsLive s (new_handle desc w)
  unfolding new_handle
  new_handle-IsLive s desc w = record {
    bounded = record { requests = omega arith; no_legacy = λ e. refl; no_media = λ e. refl };
    alive = record { given = λ e. cc; created = λ e. cc };
  }

  allocate-Safe : (desc : CreateDesc) → Safe {E = E} (allocate_handle desc)
  unfolding allocate_handle
  allocate-Safe desc = record {
    at = λ w i. elim (Bool-cases ((w.os.allocate w.env).1 == 0)) [
      | inl e ↦ rw e i
      | inr e ↦ rw e (
          insert-IsIntact w.services w.handles (w.os.allocate w.env).1 _ e i
            (new_handle-IsLive _ desc (record w { env = (w.os.allocate w.env).0 })))
    ];
  }

  create_checked-Safe : (desc : CreateDesc) → Safe {E = E} (create_checked desc)
  unfolding create_checked
  create_checked-Safe desc =
      guard-Safe (ltb desc.struct_size create_desc_size) _ _ (reject-Safe _ _) (
        guard-Safe (not (major engine_api_version == major desc.api_version)) _ _ (reject-Safe _ _)
          (allocate-Safe desc))

  pub create-Safe :
      (desc : Option CreateDesc) (given : Bool) → Safe {E = E} (engine_create desc given)
  unfolding engine_create
  create-Safe none given = reject-Safe _ _
  create-Safe (some desc) true = record {
    at = λ w i. (create_checked-Safe desc).at (register_private w) (private_Intact w i);
  }
  create-Safe (some desc) false = reject-Safe _ _

  with_owner-found :
      (body : Action E Reply) (w : World E) (o : Option ℕ)
      → IsSteady body
      → Intact w
      → Reaches Intact (elim o [
        | none ↦
            reject Result.invalid_argument (text "media handle is invalid or already destroyed") w
        | some owner ↦ locked owner body w
      ])
  with_owner-found body w none k i = i
  with_owner-found body w (some owner) k i = (locked-Safe owner body k).at w i

  pub with_owner-Safe :
      (media : ℕ) (body : Action E Reply) → IsSteady body → Safe (with_owner media body)
  unfolding with_owner
  with_owner-Safe media body k = record {
    at = λ w i. with_owner-found body w (lookup media w.media_handles) k i;
  }

  pub route_media-Safe :
      (media : ℕ) (operation : Text) (c : MediaCall) → Safe {E = E} (route_media media operation c)
  unfolding route_media
  route_media-Safe media operation c =
      guard-Safe _ _ _ (reject-Safe _ _)
        (with_owner-Safe media _ (λ s hs. route_media-Sound media operation c))

  destroyed-Intact :
      (s : Option (Services E)) (hs : List (ℕ × Handle E)) (r : Option (Result × Local E))
      → IsIntact s hs
      → Holds (Sound s hs Going) r
      → Reaches Intact (release r)
  destroyed-Intact s hs none i p = tt
  destroyed-Intact s hs (some (r, l)) i p =
      subst (λ t. IsIntact t l.world.handles) (sym p.services)
        (subst (IsIntact s) (sym p.handles) i)

  destroy-found :
      (a : ℕ) (w : World E) (o : Option (Handle E))
      → lookup a w.handles ≡ o
      → Intact w
      → Reaches Intact (elim o [
        | none ↦
            reject Result.invalid_argument (text "engine handle is invalid or already destroyed") w
        | some h ↦ release (
            destroy_body (owned_by a w.media_handles) (record {
              world = record w {
                handles = remove a w.handles;
                media_handles = not_owned_by a w.media_handles;
              };
              handle = h;
            }))
      ])
  destroy-found a w none found i = i
  destroy-found a w (some h) found i =
      destroyed-Intact w.services (remove a w.handles) _ (remove-IsIntact w.services w.handles a i)
        ((destroy_body-Sound (owned_by a w.media_handles)).at _ (record {
          services = refl;
          handles = refl;
          bounded = (i.live a h found).bounded;
          vital = tt;
        }))

  pub destroy-Safe : (a : ℕ) → Safe {E = E} (engine_destroy a)
  unfolding engine_destroy
  destroy-Safe a = record {
    at = λ w i. elim (Bool-cases (a == 0)) [
      | inl e ↦ rw e i
      | inr e ↦ rw e (destroy-found a w (lookup a w.handles) refl i)
    ];
  }

  pub pause-Safe : (a : ℕ) → Safe {E = E} (engine_pause a)
  unfolding engine_pause
  pause-Safe a = record { at = λ w i. by_services w i w.services }
    where
      by_services :
          (w : World E)
          → Intact w
          → (o : Option (Services E))
          → Reaches Intact (elim o [
            | none ↦ none
            | some s ↦ route a (text "pause") (λ _. s.invoke Call.pause) pause_provider w
          ])
      by_services w i none = tt
      by_services w i (some t) = (route-Safe a _ _ _ (λ s hs. pause_provider-Sound)).at w i

  pub resume-Safe : (a : ℕ) → Safe {E = E} (engine_resume a)
  unfolding engine_resume
  resume-Safe a = record { at = λ w i. by_services w i w.services }
    where
      by_services :
          (w : World E)
          → Intact w
          → (o : Option (Services E))
          → Reaches Intact (elim o [
            | none ↦ none
            | some s ↦ route a (text "resume") (λ _. s.invoke Call.resume) resume_provider w
          ])
      by_services w i none = tt
      by_services w i (some t) = (route-Safe a _ _ _ (λ s hs. resume_provider-Sound)).at w i
