-- ===== src/TextTransform.antt =====
-- The text hooks of abi/src/TextTransform.cpp, and the functions of abi/src/engine_api_dispatch.cpp
-- that call them in a build without AETHERKIRI_INTERNAL_TEXT_TRANSLATION.
pub mod FailOpen
use aether_kiri.Prelude.{
  ℕ, ◌+◌, ◌-◌, ◌^◌, Bool, true, false, not, ◌&&◌, ◌||◌, Option, none, some, List, [], ◌∷◌, ◌++◌,
  Text, text, ltb, leb, ◌==◌, if◌then◌else◌, length, is_empty, option_or,
}
use aether_kiri.Engine.Calls.{Result, ok, invalid_argument}

-- What a transform callback does: it throws, or returns with what it wrote to its output.
pub data Outcome : Type 0 where
  thrown : Outcome
  returned : Bool → Text → Outcome

-- The hooks; a null callback is `none`. A callback gets the runtime's name and the text. A prefetch
-- callback that throws has the effect of one that returns.
pub record Hooks (E : Type 0) : Type 0 where
  pub transform : Option (Text → Text → E → E × Outcome)
  pub prefetch : Option (Text → Text → E → E)

-- The reply of engine_transform_text_utf8: the thread's error, the size written if there is one, and
-- the bytes copied.
pub record Transformed : Type 0 where
  pub result : Result
  pub thread_error : Text
  pub required_size : Option ℕ
  pub copied : List ℕ

abbrev rejected : Text → Transformed
rejected message = record {
  result = invalid_argument;
  thread_error = message;
  required_size = none;
  copied = [];
}

-- engine_text_translation_stats_t without its zeros, in such a build: struct_size, state and backend.
pub record Stats : Type 0 where
  pub result : Result
  pub thread_error : Text
  pub out : List ℕ

-- sizeof(engine_text_translation_stats_t) with 64-bit pointers
abbrev text_translation_stats_size : ℕ
text_translation_stats_size = 216

unfoldable pub engine_get_text_translation_stats : Option ℕ → Stats
engine_get_text_translation_stats none = record {
  result = invalid_argument;
  thread_error = text "translation statistics output is required";
  out = [];
}
engine_get_text_translation_stats (some struct_size) =
    if ltb struct_size text_translation_stats_size
    then record {
      result = invalid_argument;
      thread_error = text "engine_text_translation_stats_t.struct_size is too small";
      out = [];
    }
    else record { result = ok; thread_error = []; out = struct_size ∷ 0 ∷ 0 ∷ [] }

unfoldable pub engine_is_text_translation_available : ℕ
engine_is_text_translation_available = 0

-- ENGINE_TEXT_TRANSLATION_DISABLED
unfoldable pub engine_get_text_translation_state : ℕ
engine_get_text_translation_state = 0

-- The text that an outcome stands for.
unfoldable pub accepted : Text → Outcome → Text
accepted input thrown = input
accepted input (returned done output) = if done && not (is_empty output) then output else input

abbrev done : ℕ → List ℕ → Transformed
done size copied = record {
  result = ok;
  thread_error = [];
  required_size = some size;
  copied = copied;
}

-- The end of engine_transform_text_utf8, with the text to hand over.
unfoldable pub hand_over : Text → Bool → ℕ → Transformed
hand_over transformed buffer_given size =
    if leb (2 ^ 32 - 1) (length transformed)
    then rejected (text "transformed text is too large")
    else if not buffer_given || ltb size (length transformed + 1)
    then done (length transformed + 1) []
    else done (length transformed + 1) (transformed ++ 0 ∷ [])

module _ {E : Type 0} where
  unfoldable pub set_text_transform_callback :
      Option (Text → Text → E → E × Outcome) → Hooks E → Hooks E
  set_text_transform_callback callback h = record h { transform = callback }

  unfoldable pub set_text_prefetch_callback : Option (Text → Text → E → E) → Hooks E → Hooks E
  set_text_prefetch_callback callback h = record h { prefetch = callback }

  unfoldable pub transform_with :
      Option (Text → Text → E → E × Outcome) → Option Text → Text → E → E × Text
  unfolding accepted
  transform_with none runtime_id input env = (env, input)
  transform_with (some callback) runtime_id input env =
      if is_empty input
      then (env, input)
      else let (env', outcome) = callback (option_or runtime_id []) input env in
        (env', accepted input outcome)

  -- TVPTransformText
  unfoldable pub transform_text : Hooks E → Option Text → Text → E → E × Text
  unfolding transform_with
  transform_text h runtime_id input env = transform_with h.transform runtime_id input env

  unfoldable pub prefetch_with : Option (Text → Text → E → E) → Option Text → Text → E → E
  prefetch_with none runtime_id input env = env
  prefetch_with (some callback) runtime_id input env =
      if is_empty input then env else callback (option_or runtime_id []) input env

  -- TVPPrefetchText
  unfoldable pub prefetch_text : Hooks E → Option Text → Text → E → E
  unfolding prefetch_with
  prefetch_text h runtime_id input env = prefetch_with h.prefetch runtime_id input env

  unfoldable pub engine_transform_text_utf8 :
      Hooks E → Option Text → Option Text → Bool → ℕ → Bool → E → E × Transformed
  unfolding transform_text hand_over
  engine_transform_text_utf8 h runtime_id none buffer_given size required_given env =
      (env, rejected (text "text transform input and size output are required"))
  engine_transform_text_utf8 h runtime_id (some input) buffer_given size required_given env =
      if not required_given
      then (env, rejected (text "text transform input and size output are required"))
      else let (env', transformed) = transform_text h (some (option_or runtime_id [])) input env in
        (env', hand_over transformed buffer_given size)

-- The result and the thread's error; both functions have no other effect in such a build.
unfoldable pub engine_prefetch_text_utf8 : Option Text → Option Text → Result × Text
engine_prefetch_text_utf8 none input =
    (invalid_argument, text "translation prefetch runtime and input are required")
engine_prefetch_text_utf8 (some runtime_id) none =
    (invalid_argument, text "translation prefetch runtime and input are required")
engine_prefetch_text_utf8 (some runtime_id) (some input) = (ok, [])

unfoldable pub engine_set_text_translation_skipping : Option Text → ℕ → Result × Text
engine_set_text_translation_skipping none skipping =
    (invalid_argument, text "translation skip runtime is required")
engine_set_text_translation_skipping (some runtime_id) skipping = (ok, [])
