-- ===== src/Rfvp/Settings.antt =====
-- The settings of an rfvp runtime (bridge/rfvp_runtime/src/rfvp_runtime_provider.cpp, Option).
use aether_kiri.Prelude.{
  ℕ, pos, negsuc, ◌≡◌, refl, ◌∙◌, ap, Bool, true, false, not, ◌||◌, Option, none, some, List, [],
  ◌∷◌, Text, eq_text, if◌then◌else◌, ◌==◌, arith, Bool-cases, inl, inr, ltb, length, ◌+◌,
}
use aether_kiri.Engine.Calls.{InputEvent}
use aether_kiri.Rfvp.State.{
  Code, ok, is_ok, FrameReply, frame_code, GpuReply, Adapter, Runtime, State, result, settle, call,
}
use aether_kiri.Rfvp.Calls.{
  Answer, OptionKey, current, known_key, is_encoding, is_renderer, assign, set_known, set_found,
  set_option, option, open_game, tick, pause, resume, resize, get_frame_desc, read_frame_rgba,
  get_native_frame_texture, send_input, get_frame_rendered_flag, get_renderer_info,
  get_text_input_state, mark_opened, note_read, remember, native_reply, plain, rejected, frame_out,
  rendered_flag, ask_frame, name_reply, frame_desc_size,
}
use aether_kiri.Rfvp.Run.{Call, perform, perform_all}

module _ {E : Type 0} where
  -- The encoding and the renderer are among the words that the provider knows.
  pub record IsValid (r : Runtime E) : Type 0 where
    pub encoding : is_encoding r.encoding ≡ true
    pub renderer : is_renderer r.renderer ≡ true

  pub record SameSettings (r r' : Runtime E) : Type 0 where
    pub font : r'.font ≡ r.font
    pub encoding : r'.encoding ≡ r.encoding
    pub renderer : r'.renderer ≡ r.renderer

  -- Valid settings stay valid, and an opened runtime stays opened and keeps its settings.
  pub record Keeps (r r' : Runtime E) : Type 0 where
    pub valid : IsValid r → IsValid r'
    pub locked : r.opened ≡ true → SameSettings r r' × (r'.opened ≡ true)

  -- Neither the settings nor the flag change.
  record Quiet (r r' : Runtime E) : Type 0 where
    pub same : SameSettings r r'
    pub opened : r'.opened ≡ r.opened

  Quiet-refl : (r : Runtime E) → Quiet r r
  Quiet-refl r = record {
    same = record { font = refl; encoding = refl; renderer = refl };
    opened = refl;
  }

  Keeps-of_Quiet : (r r' : Runtime E) → Quiet r r' → Keeps r r'
  Keeps-of_Quiet r r' q = record {
    valid = λ v. record {
      encoding = ap is_encoding q.same.encoding ∙ v.encoding;
      renderer = ap is_renderer q.same.renderer ∙ v.renderer;
    };
    locked = λ o. (q.same, q.opened ∙ o);
  }

  Keeps-refl : (r : Runtime E) → Keeps r r
  Keeps-refl r = Keeps-of_Quiet r r (Quiet-refl r)

  settle-Quiet :
      (a : Adapter E) (code : Code) (s : State E) → Quiet s.runtime (settle a code s).0.runtime
  unfolding settle
  settle-Quiet a (pos n) s = ground arith
  settle-Quiet a (negsuc n) s = ground arith

  result-Quiet :
      (a : Adapter E) (code : Code) (s : State E) → Quiet s.runtime (result a code s).0.runtime
  unfolding result
  result-Quiet a code s = settle-Quiet a code _

  call-Quiet :
      (a : Adapter E) (f : ℕ → E → E × Code) (s : State E) → Quiet s.runtime (call a f s).0.runtime
  unfolding call
  call-Quiet a f s =
      result-Quiet a (f s.runtime.core s.env).1 (record s { env = (f s.runtime.core s.env).0 })

  assign-Keeps :
      (k : OptionKey) (value : Text) (r : Runtime E)
      → r.opened ≡ false
      → Keeps r (assign k value r).0
  unfolding assign
  assign-Keeps k value r closed = ground arith

  branch-Keeps :
      (r : Runtime E) (b : Bool) (x y : Runtime E × Code)
      → (b ≡ true → Keeps r x.0)
      → (b ≡ false → Keeps r y.0)
      → Keeps r (if b then x else y).0
  branch-Keeps r true x y h k = h refl
  branch-Keeps r false x y h k = k refl

  set_found-Keeps :
      (o : Option OptionKey) (key value : Text) (r : Runtime E)
      → Keeps r (set_found o key value r).0
  unfolding set_found set_known
  set_found-Keeps none key value r = Keeps-refl r
  set_found-Keeps (some k) key value r =
      branch-Keeps r (eq_text value (current k r)) _ _ (λ e. Keeps-refl r)
        (λ e.
          branch-Keeps r r.opened _ _
            (λ o. Keeps-of_Quiet r _ (record {
              same = record { font = refl; encoding = refl; renderer = refl };
              opened = refl;
            }))
            (λ o. assign-Keeps k value r o))

  -- What an answer leaves behind.
  record Gives (r : Runtime E) (x : Answer E) : Type 0 where
    pub keeps : Keeps r x.state.runtime

  give : (r : Runtime E) (x : Answer E) → Keeps r x.state.runtime → Gives r x
  give r x h = record { keeps = h }

  branch-Gives :
      (r : Runtime E) (b : Bool) (x y : Answer E)
      → Gives r x
      → Gives r y
      → Gives r (if b then x else y)
  branch-Gives r true x y h k = h
  branch-Gives r false x y h k = k

  rejected-Gives : (a : Adapter E) (s : State E) → Gives s.runtime (rejected a s)
  rejected-Gives a s = record { keeps = Keeps-refl s.runtime }

  plain-Gives :
      (a : Adapter E) (r : Runtime E) (p : State E × Code)
      → Quiet r p.0.runtime
      → Gives r (plain a p)
  plain-Gives a r (s, code) q = record { keeps = Keeps-of_Quiet r s.runtime q }

  opened-Keeps :
      (b : Bool) (r : Runtime E) (s : State E)
      → Quiet r s.runtime
      → Keeps r (if b then record s { runtime = record s.runtime { opened = true } } else s).runtime
  opened-Keeps false r s q = Keeps-of_Quiet r s.runtime q
  opened-Keeps true r s q = record {
    valid = λ v. record {
      encoding = ap is_encoding q.same.encoding ∙ v.encoding;
      renderer = ap is_renderer q.same.renderer ∙ v.renderer;
    };
    locked = λ o. (
      record { font = q.same.font; encoding = q.same.encoding; renderer = q.same.renderer },
      refl,
    );
  }

  mark_opened-Gives :
      (a : Adapter E) (r : Runtime E) (p : State E × Code)
      → Quiet r p.0.runtime
      → Gives r (plain a (mark_opened a p))
  mark_opened-Gives a r (s, code) q = record { keeps = opened-Keeps (is_ok code) r s q }

  remember-Quiet :
      (a : Adapter E) (r : Runtime E) (reply : FrameReply) (s : State E)
      → Quiet r s.runtime
      → Quiet r (remember a reply s).runtime
  remember-Quiet a r (FrameReply.frame width height serial) s q = record {
    same = record { font = q.same.font; encoding = q.same.encoding; renderer = q.same.renderer };
    opened = q.opened;
  }
  remember-Quiet a r (FrameReply.failed c) s q = q

  note_read-Quiet :
      (a : Adapter E) (r : Runtime E) (p : State E × Code)
      → Quiet r p.0.runtime
      → Quiet r (note_read a p).0.runtime
  note_read-Quiet a r (s, code) q = elim (Bool-cases (is_ok code)) [
    | inl e ↦ rw e (
        remember-Quiet a r (a.frame_core s.runtime.core s.env).1
          (record s { env = (a.frame_core s.runtime.core s.env).0 }) q)
    | inr e ↦ rw e q
  ]

  native_reply-Gives :
      (a : Adapter E) (reply : GpuReply) (s : State E) → Gives s.runtime (native_reply a reply s)
  native_reply-Gives a (GpuReply.texture id width height serial) s =
      give s.runtime _ (Keeps-of_Quiet s.runtime _ (result-Quiet a ok s))
  native_reply-Gives a (GpuReply.failed (pos n)) s =
      plain-Gives a s.runtime (result a (pos n) s) (result-Quiet a (pos n) s)
  native_reply-Gives a (GpuReply.failed (negsuc n)) s =
      branch-Gives s.runtime (n == 2) _ _ (give s.runtime _ (Keeps-refl s.runtime))
        (plain-Gives a s.runtime (result a (negsuc n) s) (result-Quiet a (negsuc n) s))

  module _ (a : Adapter E) where
    called : (f : ℕ → E → E × Code) (s : State E) → Gives s.runtime (plain a (call a f s))
    called f s = plain-Gives a s.runtime (call a f s) (call-Quiet a f s)

    open_game-Gives :
        (path startup : Option Text) (s : State E) → Gives s.runtime (open_game a path startup s)
    unfolding open_game
    open_game-Gives none startup s = rejected-Gives a s
    open_game-Gives (some path) startup s = mark_opened-Gives a s.runtime _ (
        call-Quiet a
          (λ core.
            a.open_core core path startup s.runtime.writable s.runtime.font s.runtime.encoding
              s.runtime.renderer)
          s)

    option-Gives : (key value : Option Text) (s : State E) → Gives s.runtime (option a key value s)
    unfolding option set_option
    option-Gives none value s = rejected-Gives a s
    option-Gives (some key) none s = rejected-Gives a s
    option-Gives (some key) (some value) s =
        give s.runtime _ (set_found-Keeps (known_key key) key value s.runtime)

    ask_frame-Gives :
        (write : FrameReply → Code → State E → List ℕ) (s : State E)
        → Gives s.runtime (ask_frame a write s)
    unfolding ask_frame
    ask_frame-Gives write s = give s.runtime _ (
        Keeps-of_Quiet s.runtime _ (
          result-Quiet a (frame_code (a.frame_core s.runtime.core s.env).1)
            (record s { env = (a.frame_core s.runtime.core s.env).0 })))

    get_frame_desc-Gives :
        (size : Option ℕ) (s : State E) → Gives s.runtime (get_frame_desc a size s)
    unfolding get_frame_desc
    get_frame_desc-Gives none s = rejected-Gives a s
    get_frame_desc-Gives (some size) s =
        branch-Gives s.runtime (ltb size frame_desc_size) _ _ (rejected-Gives a s)
          (ask_frame-Gives (λ reply code s'. frame_out a reply code) s)

    read_frame_rgba-Gives :
        (given : Bool) (size : ℕ) (s : State E) → Gives s.runtime (read_frame_rgba a given size s)
    unfolding read_frame_rgba
    read_frame_rgba-Gives given size s =
        branch-Gives s.runtime (not given) _ _ (rejected-Gives a s) (
          plain-Gives a s.runtime (note_read a (call a (λ core. a.read_core core size) s)) (
            note_read-Quiet a s.runtime (call a (λ core. a.read_core core size) s)
              (call-Quiet a (λ core. a.read_core core size) s)))

    get_native_frame_texture-Gives :
        (given : Bool) (s : State E) → Gives s.runtime (get_native_frame_texture a given s)
    unfolding get_native_frame_texture
    get_native_frame_texture-Gives given s =
        branch-Gives s.runtime (not given) _ _ (rejected-Gives a s) (
          native_reply-Gives a (a.gpu_frame_core s.runtime.core s.env).1
            (record s { env = (a.gpu_frame_core s.runtime.core s.env).0 }))

    send_input-Gives :
        (event : Option InputEvent) (s : State E) → Gives s.runtime (send_input a event s)
    unfolding send_input
    send_input-Gives none s = rejected-Gives a s
    send_input-Gives (some event) s =
        branch-Gives s.runtime _ _ _ (rejected-Gives a s)
          (called (λ core. a.input_core core event) s)

    get_frame_rendered_flag-Gives :
        (given : Bool) (s : State E) → Gives s.runtime (get_frame_rendered_flag a given s)
    unfolding get_frame_rendered_flag
    get_frame_rendered_flag-Gives given s =
        branch-Gives s.runtime (not given) _ _ (rejected-Gives a s) (
          ask_frame-Gives (λ reply code s'. rendered_flag a reply code s'.runtime.read_serial ∷ [])
            s)

    name_reply-Gives :
        (name : Text) (given : Bool) (size : ℕ) (s : State E)
        → Gives s.runtime (name_reply a name given size s)
    unfolding name_reply
    name_reply-Gives name given size s =
        branch-Gives s.runtime (not given || ltb size (length name + 1)) (rejected a s) _
          (rejected-Gives a s) (give s.runtime _ (Keeps-refl s.runtime))

    get_renderer_info-Gives :
        (given : Bool) (size : ℕ) (s : State E) → Gives s.runtime (get_renderer_info a given size s)
    unfolding get_renderer_info
    get_renderer_info-Gives given size s =
        name_reply-Gives _ given size (record s { env = (a.gpu_frame_core s.runtime.core s.env).0 })

    get_text_input_state-Gives :
        (given : Bool) (s : State E) → Gives s.runtime (get_text_input_state a given s)
    unfolding get_text_input_state
    get_text_input_state-Gives given s =
        branch-Gives s.runtime (not given) _ _ (rejected-Gives a s)
          (give s.runtime _ (Keeps-refl s.runtime))

    resize-Gives : (width height : ℕ) (s : State E) → Gives s.runtime (resize a width height s)
    unfolding resize
    resize-Gives width height s = give s.runtime _ (Keeps-refl s.runtime)

    perform-Gives : (c : Call) (s : State E) → Gives s.runtime (perform a c s)
    unfolding perform
    perform-Gives (Call.open_game path startup) s = open_game-Gives path startup s
    perform-Gives (Call.tick delta) s = unfold tick in called (λ core. a.tick_core core delta) s
    perform-Gives Call.pause s = unfold pause in called (λ core. a.pause_core core true) s
    perform-Gives Call.resume s = unfold resume in called (λ core. a.pause_core core false) s
    perform-Gives (Call.set_option key value) s = option-Gives key value s
    perform-Gives (Call.set_surface_size width height) s = resize-Gives width height s
    perform-Gives (Call.get_frame_desc size) s = get_frame_desc-Gives size s
    perform-Gives (Call.read_frame_rgba given size) s = read_frame_rgba-Gives given size s
    perform-Gives (Call.get_native_frame_texture given) s = get_native_frame_texture-Gives given s
    perform-Gives (Call.send_input event) s = send_input-Gives event s
    perform-Gives (Call.get_frame_rendered_flag given) s = get_frame_rendered_flag-Gives given s
    perform-Gives (Call.get_renderer_info given size) s = get_renderer_info-Gives given size s
    perform-Gives (Call.get_text_input_state given) s = get_text_input_state-Gives given s

    Keeps-trans : (r q p : Runtime E) → Keeps r q → Keeps q p → Keeps r p
    Keeps-trans r q p h k = record {
      valid = λ v. k.valid (h.valid v);
      locked = λ o.
          let (same, o') = h.locked o in
          let (same', o'') = k.locked o' in
          (
            record {
              font = same'.font ∙ same.font;
              encoding = same'.encoding ∙ same.encoding;
              renderer = same'.renderer ∙ same.renderer;
            },
            o'',
          );
    }

    perform_all-Keeps :
        (calls : List Call) (s : State E) → Keeps s.runtime (perform_all a calls s).runtime
    unfolding perform_all
    perform_all-Keeps [] s = Keeps-refl s.runtime
    perform_all-Keeps (c ∷ calls) s =
        Keeps-trans _ _ _ (perform-Gives c s).keeps (perform_all-Keeps calls (perform a c s).state)

    -- From an encoding among sjis, gbk and utf8 and a renderer among auto, gpu and cpu, any sequence of
    -- calls leads to such.
    pub perform_all-IsValid :
        (calls : List Call) (s : State E)
        → IsValid s.runtime
        → IsValid (perform_all a calls s).runtime
    perform_all-IsValid calls s v = (perform_all-Keeps calls s).valid v

    -- Once a game was opened, any sequence of calls leaves the font, the encoding and the renderer as
    -- they are, and the runtime opened.
    pub perform_all-SameSettings :
        (calls : List Call) (s : State E)
        → s.runtime.opened ≡ true
        → SameSettings s.runtime (perform_all a calls s).runtime
          × ((perform_all a calls s).runtime.opened ≡ true)
    perform_all-SameSettings calls s o = (perform_all-Keeps calls s).locked o
