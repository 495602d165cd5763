-- ===== src/Stub/Serve.antt =====
-- The rules for the functions of abi/src/engine_api_stub.cpp that look a handle up, and those that
-- add and remove one.
use aether_kiri.Prelude.{
  ℕ, ◌≡◌, refl, sym, ◌∙◌, ap, subst, true, false, Option, none, some, List, [], Text, text, arith,
  ◌==◌, if◌then◌else◌, lookup, insert, remove, nat_key, Bool-cases, inl, inr, lookup-insert, ==_iff,
  lookup-remove,
}
use aether_kiri.Engine.Calls.{Result, Reply}
use aether_kiri.Stub.State.{
  Engine, new_engine, Stub, Guarded, Body, reject, accept, store, enter, locked, with_result,
}
use aether_kiri.Stub.Life.{add_engine}
use aether_kiri.Stub.Session.{Session, session_of, map_session, waiting}
use aether_kiri.Stub.Sound.{
  Sound, new_engine-Sound, Returns, Steps, SoundStub, Serves, view, found_session, same, move_at,
  id_session,
}

pub reject-Serves :
    (r : Result) (out : List ℕ) (message : Text) (s : Stub)
    → SoundStub s
    → Serves same s (reject r out message s)
unfolding reject
reject-Serves r out message s h = record {
  reply = with_result r out;
  next = record s { thread_error = message };
  returns = refl;
  sound = record { engines = h.engines; no_null = h.no_null };
  sessions = λ k. refl;
}

pub accept-Serves : (out : List ℕ) (s : Stub) → SoundStub s → Serves same s (accept out s)
unfolding accept
accept-Serves out s h = record {
  reply = with_result Result.ok out;
  next = record s { thread_error = [] };
  returns = refl;
  sound = record { engines = h.engines; no_null = h.no_null };
  sessions = λ k. refl;
}

-- What is found behind a key after a write, when the key is the written one and when it is not.
found_self :
    (h k : ℕ) (e : Engine) (engines : List (ℕ × Engine))
    → (h == k) ≡ true
    → lookup k (insert h e engines) ≡ some e
found_self h k e engines q =
    lookup-insert h k e engines ∙ ap (λ b. if b then some e else lookup k engines) q

found_other :
    (h k : ℕ) (e : Engine) (engines : List (ℕ × Engine))
    → (h == k) ≡ false
    → lookup k (insert h e engines) ≡ lookup k engines
found_other h k e engines q =
    lookup-insert h k e engines ∙ ap (λ b. if b then some e else lookup k engines) q

same_key :
    (h k : ℕ) {o : Option Engine} (engines : List (ℕ × Engine))
    → (h == k) ≡ true
    → lookup h engines ≡ o
    → lookup k engines ≡ o
same_key h k {o} engines q live = subst (λ j. lookup j engines ≡ o) ((==_iff h k).0 q) live

none-some : {a : Engine} → none ≡ some a → ⊥
none-some p = cc

some_inj : {a b : Engine} → some a ≡ some b → a ≡ b
some_inj p = cc

stored_view :
    (f : Session → Session) (h k : ℕ) (s : Stub) (e e' : Engine) (message : Text)
    → lookup h s.engines ≡ some e
    → session_of e' ≡ f (session_of e)
    → view k (record s { engines = insert h e' s.engines; thread_error = message })
      ≡ move_at h f k (view k s)
stored_view f h k s e e' message live moved = elim (Bool-cases (h == k)) [
  | inl q ↦
      ap found_session (found_self h k e' s.engines q)
      ∙ ap some moved
      ∙ sym (ap (map_session f) (ap found_session (same_key h k s.engines q live)))
      ∙ sym (ap (λ b. if b then map_session f (view k s) else view k s) q)
  | inr q ↦
      ap found_session (found_other h k e' s.engines q)
      ∙ sym (ap (λ b. if b then map_session f (view k s) else view k s) q)
]

not_null :
    (h : ℕ) (s : Stub) (e : Engine) → SoundStub s → lookup h s.engines ≡ some e → (h == 0) ≡ false
not_null h s e t live = elim (Bool-cases (h == 0)) [
  | inr q ↦ q
  | inl q ↦ absurd (none-some (sym t.no_null ∙ same_key h 0 s.engines q live))
]

stored-SoundStub :
    (h : ℕ) (s : Stub) (e' : Engine) (message : Text)
    → (h == 0) ≡ false
    → SoundStub s
    → Sound e'
    → SoundStub (record s { engines = insert h e' s.engines; thread_error = message })
stored-SoundStub h s e' message nonnull t sound = record {
  engines = λ k j found. elim (Bool-cases (h == k)) [
    | inl q ↦ subst Sound (some_inj (sym (found_self h k e' s.engines q) ∙ found)) sound
    | inr q ↦ t.engines k j (sym (found_other h k e' s.engines q) ∙ found)
  ];
  no_null = found_other h 0 e' s.engines nonnull ∙ t.no_null;
}

store-Serves :
    (h : ℕ) (f : Session → Session) (e : Engine) (o : Option (Reply × Guarded)) (s : Stub)
    → SoundStub s
    → lookup h s.engines ≡ some e
    → Returns f e o
    → Serves (move_at h f) s (store h o s)
unfolding store
store-Serves h f e none s t live r = absurd r
store-Serves h f e (some (reply, g)) s t live r = record {
  reply = reply;
  next = record s { engines = insert h g.engine s.engines; thread_error = g.thread_error };
  returns = refl;
  sound = stored-SoundStub h s g.engine g.thread_error (not_null h s e t live) t r.sound;
  sessions = λ k. stored_view f h k s e g.engine g.thread_error live r.session;
}

-- Where nothing is behind the handle, nothing moves.
still :
    (h : ℕ) (f : Session → Session) (s : Stub) (o : Option (Reply × Stub))
    → lookup h s.engines ≡ none
    → Serves same s o
    → Serves (move_at h f) s o
still h f s o dead r = record {
  reply = r.reply;
  next = r.next;
  returns = r.returns;
  sound = r.sound;
  sessions = λ k. elim (Bool-cases (h == k)) [
    | inl q ↦
        r.sessions k
        ∙ ap found_session (same_key h k s.engines q dead)
        ∙ sym (ap (map_session f) (ap found_session (same_key h k s.engines q dead)))
        ∙ sym (ap (λ b. if b then map_session f (view k s) else view k s) q)
    | inr q ↦ r.sessions k ∙ sym (ap (λ b. if b then map_session f (view k s) else view k s) q)
  ];
}

-- A function without an effect may be seen as one on any handle.
pub at_handle :
    (h : ℕ) (s : Stub) (o : Option (Reply × Stub))
    → Serves same s o
    → Serves (move_at h id_session) s o
at_handle h s o r = record {
  reply = r.reply;
  next = r.next;
  returns = r.returns;
  sound = r.sound;
  sessions = λ k. r.sessions k ∙ sym (move_at_id h k (view k s));
}
  where
    move_at_id : (h k : ℕ) (x : Option Session) → move_at h id_session k x ≡ x
    move_at_id h k none = ground arith
    move_at_id h k (some x) = ground arith

enter-Serves :
    (h : ℕ) (f : Session → Session) (out : List ℕ) (body : Body) (o : Option Engine) (s : Stub)
    → Steps f body
    → SoundStub s
    → lookup h s.engines ≡ o
    → Serves (move_at h f) s (enter h out body o s)
unfolding enter
enter-Serves h f out body none s b t dead =
    still h f s _ dead (reject-Serves Result.invalid_argument out _ s t)
enter-Serves h f out body (some e) s b t live =
    let g : Guarded = record { engine = e; thread_error = s.thread_error } in
    store-Serves h f e (body g) s t live (b.returns g (t.engines h e live))

pub locked-Serves :
    (h : ℕ) (f : Session → Session) (out : List ℕ) (body : Body) (s : Stub)
    → Steps f body
    → SoundStub s
    → Serves (move_at h f) s (locked h out body s)
unfolding locked
locked-Serves h f out body s b t = elim (Bool-cases (h == 0)) [
  | inl q ↦ rw q (
      still h f s _ (sym (null_key s h q) ∙ t.no_null)
        (reject-Serves Result.invalid_argument out (text "engine handle is null") s t))
  | inr q ↦ rw q (enter-Serves h f out body (lookup h s.engines) s b t refl)
]
  where
    null_key : (s : Stub) (h : ℕ) → (h == 0) ≡ true → lookup 0 s.engines ≡ lookup h s.engines
    null_key s h q = ap (λ j. lookup j s.engines) (sym ((==_iff h 0).0 q))

pub add_engine-SoundStub :
    (h : ℕ) (s : Stub) → (h == 0) ≡ false → SoundStub s → SoundStub (add_engine h s)
unfolding add_engine
add_engine-SoundStub h s nonnull t =
    let r = stored-SoundStub h s new_engine s.thread_error nonnull t new_engine-Sound in
    record { engines = r.engines; no_null = r.no_null }

pub view-add_engine :
    (h k : ℕ) (s : Stub) → view k (add_engine h s) ≡ (if h == k then some (waiting 0) else view k s)
unfolding add_engine
view-add_engine h k s = elim (Bool-cases (h == k)) [
  | inl q ↦ rw q (ap found_session (found_self h k new_engine s.engines q))
  | inr q ↦ rw q (ap found_session (found_other h k new_engine s.engines q))
]

removed_self :
    (h k : ℕ) (engines : List (ℕ × Engine)) → (h == k) ≡ true → lookup k (remove h engines) ≡ none
removed_self h k engines q =
    lookup-remove h k engines ∙ ap (λ b. if b then none else lookup k engines) q

removed_other :
    (h k : ℕ) (engines : List (ℕ × Engine))
    → (h == k) ≡ false
    → lookup k (remove h engines) ≡ lookup k engines
removed_other h k engines q =
    lookup-remove h k engines ∙ ap (λ b. if b then none else lookup k engines) q

pub removed-SoundStub :
    (h : ℕ) (s : Stub) → SoundStub s → SoundStub (record s { engines = remove h s.engines })
removed-SoundStub h s t = record {
  engines = λ k j found. elim (Bool-cases (h == k)) [
    | inl q ↦ absurd (none-some (sym (removed_self h k s.engines q) ∙ found))
    | inr q ↦ t.engines k j (sym (removed_other h k s.engines q) ∙ found)
  ];
  no_null = elim (Bool-cases (h == 0)) [
    | inl q ↦ removed_self h 0 s.engines q
    | inr q ↦ removed_other h 0 s.engines q ∙ t.no_null
  ];
}

pub view_removed :
    (h k : ℕ) (s : Stub)
    → view k (record s { engines = remove h s.engines }) ≡ (if h == k then none else view k s)
view_removed h k s = elim (Bool-cases (h == k)) [
  | inl q ↦ rw q (ap found_session (removed_self h k s.engines q))
  | inr q ↦ rw q (ap found_session (removed_other h k s.engines q))
]

-- A handle that is not live stands for no session.
pub view_dead :
    (h k : ℕ) (s : Stub)
    → lookup h s.engines ≡ none
    → view k s ≡ (if h == k then none else view k s)
view_dead h k s dead = elim (Bool-cases (h == k)) [
  | inl q ↦
      ap found_session (same_key h k s.engines q dead)
      ∙ sym (ap (λ b. if b then none else view k s) q)
  | inr q ↦ sym (ap (λ b. if b then none else view k s) q)
]
