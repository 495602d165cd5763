-- ===== src/Registry/Unique.antt =====
-- Identifiers and registration orders in the list of providers (abi/src/engine_runtime_provider.cpp).
use aether_kiri.Prelude.{
  ℕ, suc, ◌<◌, ◌≡◌, ◌≢◌, refl, sym, subst, inl, inr, Bool, true, false, not, ◌&&◌, ◌||◌, Option,
  none, some, List, [], ◌∷◌, ◌++◌, Text, text, arith, eq_text, eq_text_refl, eq_of_eq_text, ltb,
  ◌==◌, if◌then◌else◌, Bool-cases, All, All-append, All-map,
}
use aether_kiri.Engine.Calls.{Result, ok, invalid_argument, invalid_state, not_supported, major}
use aether_kiri.Engine.Provider.{Provider, provider_api_version, provider_min_size}
use aether_kiri.Engine.Services.{Os}
use aether_kiri.Registry.{
  Registered, Registry, normalize_runtime_id, is_valid_runtime_id, push_provider,
  legacy_kirikiri_provider, ensure_legacy_registered, find_provider, has_required_members,
  register_locked, engine_register_runtime_provider,
}

other_text : (s t : Text) → eq_text s t ≡ false → eq_text t s ≡ false
other_text s t h = elim (Bool-cases (eq_text t s)) [
  | inl e ↦
      (let same : t ≡ s = eq_of_eq_text t s e in
        let self : eq_text s t ≡ true =
          subst (λ u. eq_text s u ≡ true) (sym same) (eq_text_refl s) in
        cc)
  | inr e ↦ e
]

module _ {E : Type 0} where
  -- No entry has this identifier.
  abbrev pub IsNew : Text → List (Registered E) → Type 0
  IsNew id ps = All (λ p. eq_text p.runtime_id id ≡ false) ps

  -- `q` was registered after `p`, under another identifier.
  abbrev pub Follows : Registered E → Registered E → Type 0
  Follows p q =
      (eq_text q.runtime_id p.runtime_id ≡ false) × (p.registration_order < q.registration_order)

  abbrev pub IsOrdered : List (Registered E) → Type 0
  IsOrdered [] = Unit
  IsOrdered (p ∷ ps) = All (Follows p) ps × IsOrdered ps

  -- Identifiers are distinct, registration orders increase along the list and lie below the next one,
  -- and the list is empty until the built-in entry is in it.
  pub record IsRegistry (r : Registry E) : Type 0 where
    pub ordered : IsOrdered r.providers
    pub below : All (λ p. p.registration_order < r.next_registration_order) r.providers
    pub builtin : r.legacy_builtin_registered ≡ false → r.providers ≡ []

  find-IsNew : (id : Text) (ps : List (Registered E)) → find_provider id ps ≡ none → IsNew id ps
  unfolding find_provider
  find-IsNew id [] h = tt
  find-IsNew id (p ∷ ps) h = elim (Bool-cases (eq_text p.runtime_id id)) [
    | inl e ↦ ground arith
    | inr e ↦ (e, find-IsNew id ps (ground arith))
  ]

  append-IsOrdered :
      (ps : List (Registered E)) (p : Registered E)
      → IsOrdered ps
      → IsNew p.runtime_id ps
      → All (λ q. q.registration_order < p.registration_order) ps
      → IsOrdered (ps ++ p ∷ [])
  append-IsOrdered [] p h n b = (tt, tt)
  append-IsOrdered (q ∷ ps) p h n b = (
    All-append (Follows q) ps (p ∷ []) h.0 ((other_text _ _ n.0, b.0), tt),
    append-IsOrdered ps p h.1 n.1 b.1,
  )

  push-IsRegistry :
      (p : Provider E) (id : Text) (builtin : Bool) (r : Registry E)
      → r.legacy_builtin_registered ≡ true
      → IsRegistry r
      → IsNew id r.providers
      → IsRegistry (push_provider p id builtin r)
  unfolding push_provider
  push-IsRegistry p id builtin r e h n = record {
    ordered = append-IsOrdered r.providers _ h.ordered n h.below;
    below =
        All-append _ r.providers _
          (All-map (λ (q : Registered E). q.registration_order < r.next_registration_order)
            (λ (q : Registered E). q.registration_order < suc r.next_registration_order)
            (λ q b. omega arith) r.providers h.below)
          (omega arith, tt);
    builtin = λ f. cc;
  }

  -- The invariant, with the built-in entry in the list.
  abbrev IsReady : Registry E → Type 0
  IsReady r = IsRegistry r × (r.legacy_builtin_registered ≡ true)

  -- What `ensure_legacy_registered` pushes to.
  abbrev marked : Registry E → Registry E
  marked r = record r { legacy_builtin_registered = true }

  marked-IsRegistry : (r : Registry E) → IsRegistry r → IsRegistry (marked r)
  marked-IsRegistry r h = record { ordered = h.ordered; below = h.below; builtin = λ f. cc }

  ensured-IsReady :
      (os : Os E) (r : Registry E) (b : Bool)
      → r.legacy_builtin_registered ≡ b
      → IsRegistry r
      → IsReady (
          if b
          then r
          else push_provider (legacy_kirikiri_provider os) (text "kirikiri") true (marked r))
  unfolding push_provider
  ensured-IsReady os r true e h = (h, e)
  ensured-IsReady os r false e h = (
    push-IsRegistry (legacy_kirikiri_provider os) (text "kirikiri") true (marked r) refl
        (marked-IsRegistry r h) (subst (IsNew (text "kirikiri")) (sym (h.builtin e)) tt),
    refl,
  )

  pub ensure-IsReady :
      (os : Os E) (r : Registry E) → IsRegistry r → IsReady (ensure_legacy_registered os r)
  unfolding ensure_legacy_registered
  ensure-IsReady os r h = ensured-IsReady os r r.legacy_builtin_registered refl h

  registered-IsRegistry :
      (p : Provider E) (id : Text) (r : Registry E) (o : Option (Registered E))
      → find_provider id r.providers ≡ o
      → IsReady r
      → IsRegistry
          (elim o as (λ x. Result × Registry E) [
            | some found ↦ ((if found.api.address == p.address then ok else invalid_state), r)
            | none ↦ (ok, push_provider p id false r)
          ]).1
  registered-IsRegistry p id r (some found) e h = h.0
  registered-IsRegistry p id r none e h =
      push-IsRegistry p id false r h.1 h.0 (find-IsNew id r.providers e)

  register_locked-IsRegistry :
      (os : Os E) (p : Provider E) (id : Text) (r : Registry E)
      → IsRegistry r
      → IsRegistry (register_locked os p id r).1
  unfolding register_locked
  register_locked-IsRegistry os p id r h =
      let r' = ensure_legacy_registered os r in
      registered-IsRegistry p id r' (find_provider id r'.providers) refl (ensure-IsReady os r h)

  find-append :
      (id : Text) (ps : List (Registered E)) (p : Registered E)
      → find_provider id ps ≡ none
      → p.runtime_id ≡ id
      → find_provider id (ps ++ p ∷ []) ≡ some p
  unfolding find_provider
  find-append id [] p h e = rw (e, eq_text_refl id) refl
  find-append id (q ∷ ps) p h e = elim (Bool-cases (eq_text q.runtime_id id)) [
    | inl f ↦ ground arith
    | inr f ↦ rw f (find-append id ps p (ground arith) e)
  ]

  -- The entry under the identifier is at the address.
  abbrev pub IsAt : ℕ → Option (Registered E) → Type 0
  IsAt address none = ⊥
  IsAt address (some found) = found.api.address ≡ address

  registered-IsAt :
      (p : Provider E) (id : Text) (r : Registry E) (o : Option (Registered E))
      → find_provider id r.providers ≡ o
      → (elim o as (λ x. Result × Registry E) [
        | some found ↦ ((if found.api.address == p.address then ok else invalid_state), r)
        | none ↦ (ok, push_provider p id false r)
      ]).0
        ≡ ok
      → IsAt p.address (
          find_provider id
            (elim o as (λ x. Result × Registry E) [
              | some found ↦ ((if found.api.address == p.address then ok else invalid_state), r)
              | none ↦ (ok, push_provider p id false r)
            ]).1.providers)
  unfolding push_provider
  registered-IsAt p id r none e h =
      let added : Registered E = record {
        api = p;
        runtime_id = id;
        registration_order = r.next_registration_order;
        is_legacy_builtin = false;
      } in
      subst (IsAt p.address) (sym (find-append id r.providers added e refl)) refl
  registered-IsAt p id r (some found) e h = rw e (ground arith)

  register_locked-IsAt :
      (os : Os E) (p : Provider E) (id : Text) (r : Registry E)
      → (register_locked os p id r).0 ≡ ok
      → IsAt p.address (find_provider id (register_locked os p id r).1.providers)
  unfolding register_locked
  register_locked-IsAt os p id r h =
      let r' = ensure_legacy_registered os r in
      registered-IsAt p id r' (find_provider id r'.providers) refl h

  -- What a registration from `r` guarantees.
  record Settles (p : Provider E) (r : Registry E) (y : Result × Registry E) : Type 0 where
    kept : IsRegistry r → IsRegistry y.1
    found :
        y.0 ≡ ok → IsAt p.address (find_provider (normalize_runtime_id p.runtime_id) y.1.providers)

  guard-Settles :
      (p : Provider E) (r : Registry E) (b : Bool) (x y : Result × Registry E)
      → Settles p r x
      → Settles p r y
      → Settles p r (if b then x else y)
  guard-Settles p r true x y h k = h
  guard-Settles p r false x y h k = k

  refused-Settles : (p : Provider E) (r : Registry E) (x : Result) → x ≢ ok → Settles p r (x, r)
  refused-Settles p r x no_ok = record { kept = λ h. h; found = λ e. elim (no_ok e) [ ] }

  register-Settles :
      (os : Os E) (artemis_enabled : Bool) (p : Provider E) (r : Registry E)
      → Settles p r (engine_register_runtime_provider os artemis_enabled (some p) r)
  unfolding engine_register_runtime_provider
  register-Settles os artemis_enabled p r =
      let not_valid = refused-Settles p r invalid_argument (λ e. cc) in
      let not_known = refused-Settles p r not_supported (λ e. cc) in
      let id = normalize_runtime_id p.runtime_id in
      guard-Settles p r (ltb p.struct_size provider_min_size) _ _ not_valid (
        guard-Settles p r (not (major p.api_version == major provider_api_version)) _ _ not_known (
          guard-Settles p r (not (is_valid_runtime_id id && has_required_members p)) _ _ not_valid (
            guard-Settles p r (eq_text id (text "auto") || eq_text id (text "legacy")) _ _ not_valid
              (guard-Settles p r (not artemis_enabled && eq_text id (text "artemis")) _ _ not_known
                (record {
                  kept = register_locked-IsRegistry os p id r;
                  found = register_locked-IsAt os p id r;
                })))))

  -- Registering a provider, whatever the outcome, keeps the list's identifiers distinct and its
  -- registration orders increasing and below the next one.
  pub register-IsRegistry :
      (os : Os E) (artemis_enabled : Bool) (p : Option (Provider E)) (r : Registry E)
      → IsRegistry r
      → IsRegistry (engine_register_runtime_provider os artemis_enabled p r).1
  unfolding engine_register_runtime_provider
  register-IsRegistry os artemis_enabled none r h = h
  register-IsRegistry os artemis_enabled (some p) r h =
      (register-Settles os artemis_enabled p r).kept h

  -- A registration that succeeds leaves the provider under its lower-case identifier: as a new entry,
  -- or as the same provider that was there before. Another provider under that identifier is refused.
  pub register-IsAt :
      (os : Os E) (artemis_enabled : Bool) (p : Provider E) (r : Registry E)
      → (engine_register_runtime_provider os artemis_enabled (some p) r).0 ≡ ok
      → IsAt p.address (
          find_provider
            (normalize_runtime_id p.runtime_id)
            (engine_register_runtime_provider os artemis_enabled (some p) r).1.providers)
  register-IsAt os artemis_enabled p r h = (register-Settles os artemis_enabled p r).found h
