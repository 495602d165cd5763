-- ===== src/Dispatch/Creation.antt =====
-- engine_create of abi/src/engine_api_dispatch.cpp: the new handle.
use aether_kiri.Prelude.{
  ℕ, ◌≡◌, ◌≢◌, refl, ◌∙◌, subst, Bool, true, false, not, Option, none, some, List, [], ◌∷◌, Text,
  ltb, lookup, lookup-insert, insert, nat_key, ◌==◌, ==_refl, Bool-cases, inl, inr, if◌then◌else◌,
}
use aether_kiri.Engine.Calls.{
  Result, ok, invalid_argument, not_supported, internal_error, Reply, CreateDesc, StartupState,
  create_desc_size, engine_api_version, major,
}
use aether_kiri.Engine.Provider.{Provider}
use aether_kiri.Engine.Services.{Services}
use aether_kiri.Dispatch.State.{Backend, Handle, World}
use aether_kiri.Dispatch.Route.{Api, reject}
use aether_kiri.Dispatch.Lifecycle.{
  register_all, register_private, new_handle, allocate_handle, create_checked, engine_create,
}

module _ {E : Type 0} where
  -- The handle is live, has no backend yet and has not been started.
  pub record IsFresh (a : ℕ) (w : World E) : Type 0 where
    pub handle : Handle E
    pub live : lookup a w.handles ≡ some handle
    pub undecided : handle.backend ≡ Backend.undecided
    pub idle : handle.startup_state ≡ StartupState.idle

  -- OK comes with one fresh handle, and any other result with the handles as they were.
  pub record IsCreated (handles : List (ℕ × Handle E)) (r : Reply) (w : World E) : Type 0 where
    pub fresh : r.result ≡ ok → (a : ℕ) × (r.out ≡ a ∷ []) × IsFresh a w
    pub unchanged : r.result ≢ ok → w.handles ≡ handles

  abbrev pub Creates : List (ℕ × Handle E) → Option (Reply × World E) → Type 0
  Creates handles none = ⊥
  Creates handles (some (r, w)) = IsCreated handles r w

  reject-Creates :
      (result : Result) (message : Text) (w w' : World E)
      → result ≢ ok
      → w'.handles ≡ w.handles
      → Creates w.handles (reject result message w')
  reject-Creates result message w w' not_ok e = record {
    fresh = λ h. elim (not_ok h) [ ];
    unchanged = λ h. e;
  }

  guard-Creates :
      (handles : List (ℕ × Handle E)) (b : Bool) (f g : Api E) (w : World E)
      → Creates handles (f w)
      → Creates handles (g w)
      → Creates handles ((if b then f else g) w)
  guard-Creates handles true f g w h k = h
  guard-Creates handles false f g w h k = k

  found_self : (a : ℕ) (h : Handle E) (hs : List (ℕ × Handle E)) → lookup a (insert a h hs) ≡ some h
  found_self a h hs = lookup-insert a a h hs ∙ rw (==_refl a) refl

  allocated-Creates : (desc : CreateDesc) (w : World E) → Creates w.handles (allocate_handle desc w)
  unfolding allocate_handle new_handle
  allocated-Creates desc w = elim (Bool-cases ((w.os.allocate w.env).1 == 0)) [
    | inl e ↦ rw e (
        reject-Creates internal_error _ w (record w { env = (w.os.allocate w.env).0 }) (λ h. cc)
          refl)
    | inr e ↦ rw e (record {
      fresh = λ h. (
        (w.os.allocate w.env).1,
        refl,
        record {
          handle = new_handle desc (record w { env = (w.os.allocate w.env).0 });
          live = found_self _ _ w.handles;
          undecided = refl;
          idle = refl;
        },
      );
      unchanged = λ h. elim (h refl) [ ];
    })
  ]

  checked-Creates : (desc : CreateDesc) (w : World E) → Creates w.handles (create_checked desc w)
  unfolding create_checked
  checked-Creates desc w =
      guard-Creates w.handles (ltb desc.struct_size create_desc_size) _ _ w
        (reject-Creates invalid_argument _ w w (λ h. cc) refl)
        (guard-Creates w.handles (not (major engine_api_version == major desc.api_version)) _ _ w
          (reject-Creates not_supported _ w w (λ h. cc) refl) (allocated-Creates desc w))

  private_handles : (w : World E) → (register_private w).handles ≡ w.handles
  unfolding register_private
  private_handles w = by_services w.services
    where
      by_providers :
          (o : Option (List (Provider E)))
          → (elim o as (λ x. World E) [
            | none ↦ w
            | some providers ↦ record w {
              registry = register_all w.os w.build.artemis_enabled providers w.registry;
            }
          ]).handles
            ≡ w.handles
      by_providers none = refl
      by_providers (some providers) = refl

      by_services :
          (o : Option (Services E))
          → (elim o as (λ x. World E) [
            | none ↦ w
            | some s ↦ elim s.register_private_runtimes [
              | none ↦ w
              | some providers ↦ record w {
                registry = register_all w.os w.build.artemis_enabled providers w.registry;
              }
            ]
          ]).handles
            ≡ w.handles
      by_services none = refl
      by_services (some s) = by_providers s.register_private_runtimes

  -- engine_create never faults. With OK it gives one handle, which is live, without a backend and not
  -- started; with any other result the live handles are as they were.
  pub engine_create-Creates :
      (desc : Option CreateDesc) (out_given : Bool) (w : World E)
      → Creates w.handles (engine_create desc out_given w)
  unfolding engine_create
  engine_create-Creates none out_given w = reject-Creates invalid_argument _ w w (λ h. cc) refl
  engine_create-Creates (some desc) false w = reject-Creates invalid_argument _ w w (λ h. cc) refl
  engine_create-Creates (some desc) true w =
      subst (λ hs. Creates hs (create_checked desc (register_private w))) (private_handles w)
        (checked-Creates desc (register_private w))
