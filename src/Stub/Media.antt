-- ===== src/Stub/Media.antt =====
-- The media functions of abi/src/engine_api_stub.cpp, which plays nothing. No function looks at its
-- handles.
use aether_kiri.Prelude.{
  ℕ, ℤ, Bool, not, ◌||◌, Option, none, some, [], ◌∷◌, Text, text, ltb, ◌==◌, if◌then◌else◌,
}
use aether_kiri.Engine.Calls.{ok, not_supported}
use aether_kiri.Stub.State.{Api, reject, with_result}

-- sizeof(engine_media_state_t) with 64-bit pointers
abbrev media_state_size : ℕ
media_state_size = 128

abbrev unavailable : Text
unavailable = text "media playback is unavailable"

abbrev no_subtitles : Text
no_subtitles = text "media subtitles are unavailable"

-- The engine is not looked at.
unfoldable pub engine_legacy_media_open : ℕ → Bool → Api
unfolding reject
engine_legacy_media_open address media_given =
    reject not_supported (if media_given then 0 ∷ [] else [])
      (text "standalone media playback is not supported in stub builds")

unfoldable pub engine_legacy_media_destroy : Api
engine_legacy_media_destroy s = some (with_result ok [], s)

unfoldable pub engine_legacy_media_play : Api
unfolding reject
engine_legacy_media_play = reject not_supported [] unavailable

unfoldable pub engine_legacy_media_pause : Api
unfolding reject
engine_legacy_media_pause = reject not_supported [] unavailable

unfoldable pub engine_legacy_media_seek : ℤ → Api
unfolding reject
engine_legacy_media_seek position_ms = reject not_supported [] unavailable

unfoldable pub engine_legacy_media_set_rate : ℕ → Api
unfolding reject
engine_legacy_media_set_rate playback_rate = reject not_supported [] unavailable

unfoldable pub engine_legacy_media_set_volume : ℕ → Api
unfolding reject
engine_legacy_media_set_volume volume = reject not_supported [] unavailable

-- The caller's struct_size. The reply is struct_size and status; all other members are 0.
unfoldable pub engine_legacy_media_get_state : Option ℕ → Api
unfolding reject
engine_legacy_media_get_state none = reject not_supported [] unavailable
engine_legacy_media_get_state (some struct_size) =
    reject not_supported
      (if ltb struct_size media_state_size then [] else media_state_size ∷ 4 ∷ []) unavailable

unfoldable pub engine_legacy_media_get_subtitle_tracks_json : Bool → ℕ → Bool → Api
unfolding reject
engine_legacy_media_get_subtitle_tracks_json buffer_given size written_given =
    reject not_supported
      (if not buffer_given || size == 0
        then (if written_given then 0 ∷ [] else [])
        else 0 ∷ (if written_given then 0 ∷ [] else []))
      no_subtitles

unfoldable pub engine_legacy_media_extract_subtitle : ℤ → Option Text → Api
unfolding reject
engine_legacy_media_extract_subtitle stream_index path = reject not_supported [] no_subtitles

unfoldable pub engine_legacy_media_read_frame_rgba : ℕ → Api
unfolding reject
engine_legacy_media_read_frame_rgba size = reject not_supported [] unavailable

unfoldable pub engine_legacy_get_godot_native_frame_texture : ℕ → Api
engine_legacy_get_godot_native_frame_texture address s = some (with_result not_supported [], s)
