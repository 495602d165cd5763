-- ===== src/Siglus/Queries.antt =====
-- What a host asks a runtime about
-- (bridge/siglus_runtime/src/siglus_runtime_provider.cpp). The runtime pointer is not null.
use aether_kiri.Prelude.{
  ℕ, ◌+◌, ◌-◌, ◌%◌, ◌^◌, ℤ, pos, negsuc, ltb_ℤ, Bool, false, not, ◌||◌, Option, none, some, List,
  [], ◌∷◌, ◌++◌, Text, text, ltb, leb, ◌==◌, if◌then◌else◌, is_empty, length, take,
}
use aether_kiri.Engine.Calls.{ok, invalid_argument, not_supported}
use aether_kiri.Siglus.State.{
  Shell, TextState, CacheStats, State, Answer, answer, safe_last, fail, ok_or, call,
}

-- sizeof(engine_memory_stats_t)
abbrev pub memory_stats_size : ℕ
memory_stats_size = 160

-- sizeof(engine_text_input_state_t)
abbrev pub text_input_state_size : ℕ
text_input_state_size = 88

abbrev member : ℤ → ℕ
member (pos n) = n
member (negsuc n) = 2 ^ 32 - 1 - n

module _ {E : Type 0} where
  -- CopyString: the result and the buffer's bytes; with `bytes_written`, their number comes first.
  unfoldable pub copy_string : Text → Bool → ℕ → Bool → State E → Answer E
  copy_string value output_given size count s =
      if not output_given || size == 0
      then answer invalid_argument s
      else let copied = take (size - 1) value in
        record {
          state = s;
          result = if leb (length value) (size - 1) then ok else invalid_argument;
          out = (if count then (length copied % 2 ^ 32) ∷ [] else []) ++ (copied ++ 0 ∷ []);
        }

  module _ (a : Shell E) where
    unfoldable pub get_frame_rendered_flag : Bool → State E → Answer E
    get_frame_rendered_flag flag_given s =
        if not flag_given then answer invalid_argument s else record {
          state = s;
          result = ok;
          out =
              (if not (s.runtime.frame_serial == s.runtime.delivered_frame_serial) then 1 else 0)
              ∷ [];
        }

    unfoldable pub get_renderer_info : Bool → ℕ → State E → Answer E
    unfolding copy_string
    get_renderer_info output_given size s =
        copy_string
          (text "runtime=siglus provider=engine_runtime_provider_v1 "
            ++ (if s.runtime.shared_current
                then text "render=wgpu-iosurface-shared"
                else text "render=wgpu-offscreen-cpu"))
          output_given size false s

    -- The reply is graphic_cache_bytes and graphic_cache_limit_bytes.
    unfoldable pub cache_reply : CacheStats → State E → Answer E
    unfolding fail
    cache_reply stats s =
        if ltb_ℤ stats.code (pos 0)
        then record (fail a (text "siglus cache stats") stats.code s) { out = 0 ∷ 0 ∷ [] }
        else record {
          state = s;
          result = ok;
          out =
              ((stats.cpu + stats.gpu) % 2 ^ 64)
              ∷ ((stats.cpu_limit + stats.gpu_limit) % 2 ^ 64)
              ∷ [];
        }

    unfoldable pub get_memory_stats : Option ℕ → State E → Answer E
    unfolding cache_reply
    get_memory_stats none s = answer invalid_argument s
    get_memory_stats (some struct_size) s =
        if ltb struct_size memory_stats_size
        then answer invalid_argument s
        else let (env, stats) = a.cache_stats s.runtime.ak s.env in
          cache_reply stats (record s { env = env })

    unfoldable pub debug_reply : ℤ → Text → Bool → ℕ → Bool → State E → Answer E
    unfolding fail copy_string
    debug_reply code details output_given size count s =
        if ltb_ℤ code (pos 0)
        then fail a (text "siglus debug info") code s
        else copy_string (text "runtime=siglus " ++ details) output_given size count s

    unfoldable pub get_debug_info : Bool → ℕ → Bool → State E → Answer E
    unfolding debug_reply
    get_debug_info output_given size count s =
        let (env, (code, details)) = a.debug_info s.runtime.ak s.env in
        debug_reply code details output_given size count (record s { env = env })

    unfoldable pub get_last_error : State E → Text
    get_last_error s = if not (is_empty s.runtime.error) then s.runtime.error else safe_last a s

    -- The reply is ime_active, attention_point_valid, attention_x, attention_y, text_available,
    -- text_utf8_bytes, selection_start and selection_end.
    unfoldable pub details_reply : TextState → State E → Answer E
    unfolding fail
    details_reply t s =
        if ltb_ℤ t.code (pos 0) then fail a (text "siglus text input state") t.code s else record {
          state = s;
          result = ok;
          out =
              t.active
              ∷ t.active
              ∷ member t.x
              ∷ member t.y
              ∷ t.active
              ∷ t.text_bytes
              ∷ member t.selection_start
              ∷ member t.selection_end
              ∷ [];
        }

    unfoldable pub get_text_input_details : Option ℕ → State E → Answer E
    unfolding details_reply
    get_text_input_details none s = answer invalid_argument s
    get_text_input_details (some struct_size) s =
        if ltb struct_size text_input_state_size
        then answer invalid_argument s
        else let (env, t) = a.text_input_state s.runtime.ak s.env in
          details_reply t (record s { env = env })

    abbrev active_flag : List ℕ → ℕ
    active_flag [] = 0
    active_flag (active ∷ rest) = if active == 0 then 0 else 1

    -- The lambda get_text_input_state of MakeProvider.
    unfoldable pub get_text_input_state : Bool → State E → Answer E
    unfolding get_text_input_details
    get_text_input_state flags_given s =
        if not flags_given
        then answer invalid_argument s
        else let details = get_text_input_details (some text_input_state_size) s in
          record details { out = active_flag details.out ∷ [] }

    -- The lambda copy_text_input_text of MakeProvider.
    unfoldable pub copy_text_input_text : ℕ → State E → Answer E
    unfolding ok_or
    copy_text_input_text size s =
        let (env, (code, bytes)) = a.copy_text_input_text s.runtime.ak size s.env in
        let copied = ok_or a (text "siglus copy input text") code (record s { env = env }) in
        record copied { out = bytes }

    -- The lambda submit_platform_response of MakeProvider.
    unfoldable pub submit_platform_response : Text → Text → State E → Answer E
    unfolding call
    submit_platform_response operation argument s =
        call a (text "siglus platform response")
          (λ ak. a.submit_platform_response ak operation argument) s

    abbrev pub texture_reply : Option (List ℕ) → State E → Answer E
    texture_reply none s = answer not_supported s
    texture_reply (some outputs) s = record {
      state = record s {
        runtime = record s.runtime { delivered_frame_serial = s.runtime.frame_serial };
      };
      result = ok;
      out = outputs;
    }

    -- The lambda get_godot_native_frame_texture of MakeProvider.
    unfoldable pub get_native_frame_texture : Bool → State E → Answer E
    get_native_frame_texture outputs_given s =
        if not outputs_given
        then answer invalid_argument s
        else if not s.runtime.shared_current
        then answer not_supported s
        else texture_reply (a.get_shared s.env) s
