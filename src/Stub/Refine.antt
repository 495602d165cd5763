-- ===== src/Stub/Refine.antt =====
-- The stub engine (abi/src/engine_api_stub.cpp) against Stub.Session: any sequence of calls.
use aether_kiri.Prelude.{
  ℕ, ◌≡◌, refl, sym, ◌∙◌, ap, Bool, true, false, not, ◌&&◌, ◌||◌, Option, none, some, List, [], ◌∷◌,
  Text, text, ltb, ◌==◌, if◌then◌else◌, is_empty, Bool-cases, inl, inr, remove, nat_key, lookup,
}
use aether_kiri.Engine.Calls.{
  Result, ok, Reply, CreateDesc, create_desc_size, engine_api_version, major,
}
use aether_kiri.Stub.State.{Engine, Stub, Api, reject, accept, with_result, new_stub}
use aether_kiri.Stub.Life.{
  engine_legacy_get_runtime_api_version, engine_legacy_create, engine_legacy_destroy, destroy_found,
  add_engine,
}
use aether_kiri.Stub.Frames.{
  engine_legacy_get_main_menu_json, engine_legacy_activate_menu_item,
  engine_legacy_get_renderer_info,
}
use aether_kiri.Stub.Media.{
  engine_legacy_media_open, engine_legacy_media_destroy, engine_legacy_media_play,
  engine_legacy_media_pause, engine_legacy_media_seek, engine_legacy_media_set_rate,
  engine_legacy_media_set_volume, engine_legacy_media_get_state,
  engine_legacy_media_get_subtitle_tracks_json, engine_legacy_media_extract_subtitle,
  engine_legacy_media_read_frame_rgba, engine_legacy_get_godot_native_frame_texture,
}
use aether_kiri.Stub.Api.{
  FreeCall, StubCall, without_handle, perform, perform_all, reply_text, last_error_found,
  engine_legacy_get_last_error,
}
use aether_kiri.Stub.Session.{Session, session_step, session_steps, waiting}
use aether_kiri.Stub.Sound.{SoundStub, Serves, view, same}
use aether_kiri.Stub.Serve.{
  reject-Serves, accept-Serves, add_engine-SoundStub, view-add_engine, removed-SoundStub,
  view_removed, view_dead,
}
use aether_kiri.Prelude.{==_iff}
use aether_kiri.Stub.Perform.{on_handle-Serves}

module _ (s : Stub) (t : SoundStub s) where
  -- A function that rejects its arguments or leaves the engines alone.
  free_if :
      (b : Bool) (r : Result) (message : Text) (body : Api)
      → Serves same s (body s)
      → Serves same s ((if b then reject r [] message else body) s)
  free_if true r message body h = reject-Serves r [] message s t
  free_if false r message body h = h

  silent : (r : Result) → Serves same s (some (with_result r [], s))
  silent r = record {
    reply = with_result r [];
    next = s;
    returns = refl;
    sound = t;
    sessions = λ k. refl;
  }

  refused : (r : Result) (out : List ℕ) (message : Text) → Serves same s (reject r out message s)
  refused r out message = reject-Serves r out message s t

  version-Serves : (given : Bool) → Serves same s (engine_legacy_get_runtime_api_version given s)
  unfolding engine_legacy_get_runtime_api_version
  version-Serves given = free_if (not given) _ _ _ (accept-Serves _ s t)

  main_menu-Serves :
      (address : ℕ) (buffer : Bool) (size : ℕ) (written : Bool)
      → Serves same s (engine_legacy_get_main_menu_json address buffer size written s)
  unfolding engine_legacy_get_main_menu_json
  main_menu-Serves address buffer size written =
      free_if (not written) _ _ _ (
        free_if (not buffer || size == 0) Result.invalid_argument _ (accept _)
          (accept-Serves _ s t))

  renderer_info-Serves :
      (address : ℕ) (buffer : Bool) (size : ℕ)
      → Serves same s (engine_legacy_get_renderer_info address buffer size s)
  unfolding engine_legacy_get_renderer_info
  renderer_info-Serves address buffer size =
      free_if (not buffer || size == 0) Result.invalid_argument _ (accept _) (accept-Serves _ s t)

  menu_item-Serves :
      (address : ℕ) (path : Option Text)
      → Serves same s (engine_legacy_activate_menu_item address path s)
  unfolding engine_legacy_activate_menu_item
  menu_item-Serves address none = refused _ _ _
  menu_item-Serves address (some path) = free_if (is_empty path) _ _ _ (refused _ _ _)

  media_get_state-Serves : (size : Option ℕ) → Serves same s (engine_legacy_media_get_state size s)
  unfolding engine_legacy_media_get_state
  media_get_state-Serves none = refused _ _ _
  media_get_state-Serves (some size) = refused _ _ _

  without_handle-Serves : (call : FreeCall) → Serves same s (without_handle call s)
  unfolding without_handle
  without_handle-Serves (FreeCall.get_runtime_api_version given) = version-Serves given
  without_handle-Serves (FreeCall.get_main_menu_json address buffer size written) =
      main_menu-Serves address buffer size written
  without_handle-Serves (FreeCall.activate_menu_item address path) = menu_item-Serves address path
  without_handle-Serves (FreeCall.get_renderer_info address buffer size) =
      renderer_info-Serves address buffer size
  without_handle-Serves (FreeCall.media_open address given) =
      unfold engine_legacy_media_open in refused _ _ _
  without_handle-Serves FreeCall.media_destroy = unfold engine_legacy_media_destroy in silent _
  without_handle-Serves FreeCall.media_play = unfold engine_legacy_media_play in refused _ _ _
  without_handle-Serves FreeCall.media_pause = unfold engine_legacy_media_pause in refused _ _ _
  without_handle-Serves (FreeCall.media_seek position) =
      unfold engine_legacy_media_seek in refused _ _ _
  without_handle-Serves (FreeCall.media_set_rate rate) =
      unfold engine_legacy_media_set_rate in refused _ _ _
  without_handle-Serves (FreeCall.media_set_volume volume) =
      unfold engine_legacy_media_set_volume in refused _ _ _
  without_handle-Serves (FreeCall.media_get_state size) = media_get_state-Serves size
  without_handle-Serves (FreeCall.media_get_subtitle_tracks_json buffer size written) =
      unfold engine_legacy_media_get_subtitle_tracks_json in refused _ _ _
  without_handle-Serves (FreeCall.media_extract_subtitle stream path) =
      unfold engine_legacy_media_extract_subtitle in refused _ _ _
  without_handle-Serves (FreeCall.media_read_frame_rgba size) =
      unfold engine_legacy_media_read_frame_rgba in refused _ _ _
  without_handle-Serves (FreeCall.get_godot_native_frame_texture address) =
      unfold engine_legacy_get_godot_native_frame_texture in silent _

  -- A call that does not do what its session step would not do either.
  idle_as :
      (f : ℕ → Option Session → Option Session) (o : Option (Reply × Stub))
      → ((k : ℕ) (x : Option Session) → f k x ≡ x)
      → Serves same s o
      → Serves f s o
  idle_as f o e r = record {
    reply = r.reply;
    next = r.next;
    returns = r.returns;
    sound = r.sound;
    sessions = λ k. r.sessions k ∙ sym (e k (view k s));
  }

  added-Serves :
      (address : ℕ)
      → (address == 0) ≡ false
      → Serves
          (λ k x. if address == k then some (waiting 0) else x)
          s
          (accept (address ∷ []) (add_engine address s))
  unfolding accept
  added-Serves address nonnull =
      let added = add_engine-SoundStub address s nonnull t in
      record {
        reply = with_result ok (address ∷ []);
        next = record (add_engine address s) { thread_error = [] };
        returns = refl;
        sound = record { engines = added.engines; no_null = added.no_null };
        sessions = λ k. view-add_engine address k s;
      }

  -- The tests of engine_create, in order.
  created :
      (given small supported null : Bool) (address : ℕ) (m n o p : Text)
      → (address == 0) ≡ null
      → Serves
          (λ k x.
            if (given && (not small && (supported && not null))) && address == k
            then some (waiting 0)
            else x)
          s
          ((if not given then reject Result.invalid_argument [] m else λ s'.
              if small
              then reject Result.invalid_argument [] n s'
              else if not supported
              then reject Result.not_supported [] o s'
              else if null
              then reject Result.internal_error (0 ∷ []) p s'
              else accept (address ∷ []) (add_engine address s'))
            s)
  created false small supported null address m n o p e = idle_as _ _ (λ k x. refl) (refused _ _ m)
  created true true supported null address m n o p e = idle_as _ _ (λ k x. refl) (refused _ _ n)
  created true false false null address m n o p e = idle_as _ _ (λ k x. refl) (refused _ _ o)
  created true false true true address m n o p e = idle_as _ _ (λ k x. refl) (refused _ _ p)
  created true false true false address m n o p e = added-Serves address e

  create-Serves :
      (desc : Option CreateDesc) (given : Bool) (address : ℕ)
      → Serves
          (session_step (StubCall.create desc given address))
          s
          (engine_legacy_create desc given address s)
  unfolding engine_legacy_create
  create-Serves none given address = idle_as _ _ (λ k x. refl) (refused _ _ _)
  create-Serves (some desc) given address =
      created given (ltb desc.struct_size create_desc_size)
        (major desc.api_version == major engine_api_version) (address == 0) address _ _ _ _ refl

  found-Serves :
      (h : ℕ) (o : Option Engine)
      → lookup h s.engines ≡ o
      → Serves (session_step (StubCall.destroy h)) s (destroy_found h o s)
  unfolding destroy_found accept
  found-Serves h none dead =
      let r = refused Result.invalid_argument [] _ in
      record {
        reply = r.reply;
        next = r.next;
        returns = r.returns;
        sound = r.sound;
        sessions = λ k. r.sessions k ∙ view_dead h k s dead;
      }
  found-Serves h (some e) live =
      let removed = removed-SoundStub h s t in
      record {
        reply = with_result ok [];
        next = record s { engines = remove h s.engines; thread_error = [] };
        returns = refl;
        sound = record { engines = removed.engines; no_null = removed.no_null };
        sessions = λ k. view_removed h k s;
      }

  -- The null handle stands for no session.
  null-Serves :
      (h : ℕ) → (h == 0) ≡ true → Serves (session_step (StubCall.destroy h)) s (accept [] s)
  null-Serves h q =
      let r = accept-Serves [] s t in
      record {
        reply = r.reply;
        next = r.next;
        returns = r.returns;
        sound = r.sound;
        sessions = λ k.
            r.sessions k
            ∙ view_dead h k s (ap (λ j. lookup j s.engines) ((==_iff h 0).0 q) ∙ t.no_null);
      }

  destroy-Serves :
      (h : ℕ) → Serves (session_step (StubCall.destroy h)) s (engine_legacy_destroy h s)
  unfolding engine_legacy_destroy
  destroy-Serves h = elim (Bool-cases (h == 0)) [
    | inl q ↦ rw q (null-Serves h q)
    | inr q ↦ rw q (found-Serves h (lookup h s.engines) refl)
  ]

  answered : (message : Text) → Serves same s (reply_text (message, s))
  answered message = record {
    reply = with_result ok message;
    next = s;
    returns = refl;
    sound = t;
    sessions = λ k. refl;
  }

  found_error-Serves : (o : Option Engine) → Serves same s (reply_text (last_error_found o s))
  unfolding last_error_found reject
  found_error-Serves none =
      let message = text "engine handle is invalid or already destroyed" in
      record {
        reply = with_result ok message;
        next = record s { thread_error = message };
        returns = refl;
        sound = record { engines = t.engines; no_null = t.no_null };
        sessions = λ k. refl;
      }
  found_error-Serves (some e) = answered e.last_error

  last_error-Serves : (h : ℕ) → Serves same s (reply_text (engine_legacy_get_last_error h s))
  unfolding engine_legacy_get_last_error
  last_error-Serves h = elim (Bool-cases (h == 0)) [
    | inl q ↦ rw q (answered s.thread_error)
    | inr q ↦ rw q (found_error-Serves (lookup h s.engines))
  ]

  pub perform-Serves : (call : StubCall) → Serves (session_step call) s (perform call s)
  unfolding perform
  perform-Serves (StubCall.create desc given address) = create-Serves desc given address
  perform-Serves (StubCall.destroy h) = destroy-Serves h
  perform-Serves (StubCall.on h call) = on_handle-Serves h s t call
  perform-Serves (StubCall.free call) = without_handle-Serves call
  perform-Serves (StubCall.get_last_error h) = last_error-Serves h
  perform-Serves StubCall.activate_audio_session_for_host = answered _
  perform-Serves StubCall.drain_texture_recycle = answered _

pub new_stub-SoundStub : SoundStub new_stub
unfolding lookup
new_stub-SoundStub = record { engines = λ k e found. cc; no_null = refl }

-- Any sequence of calls of the stub's table, in any order and with any arguments, from a state where
-- the null handle is not live and every live engine is sound (as from the start), never looks at an
-- empty event queue, keeps the state so, and moves the session behind every handle exactly as the
-- sequence of session steps does.
pub perform_all-session_steps :
    (calls : List StubCall) (s : Stub)
    → SoundStub s
    → (s' : Stub) × (perform_all calls s ≡ some s')
      × SoundStub s'
      × ((k : ℕ) → view k s' ≡ session_steps calls k (view k s))
unfolding perform_all session_steps
perform_all-session_steps [] s t = (s, refl, t, λ k. refl)
perform_all-session_steps (c ∷ calls) s t =
    let r = perform-Serves s t c in
    let (s', run, sound, views) = perform_all-session_steps calls r.next r.sound in
    (
      s',
      rw (r.returns, perform_all) run,
      sound,
      λ k. views k ∙ ap (session_steps calls k) (r.sessions k),
    )
