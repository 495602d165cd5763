-- ===== src/Dispatch/Media.antt =====
-- The media calls of abi/src/engine_api_dispatch.cpp, with the map from media handles to the engine
-- handles that opened them.
use aether_kiri.Prelude.{
  ℕ, Bool, not, ◌||◌, ℤ, Option, none, some, [], ◌∷◌, Text, text, ◌==◌, if◌then◌else◌, is_empty,
  is_some, option_or, lookup, insert, remove, nat_key,
}
use aether_kiri.Engine.Calls.{ok, invalid_argument, internal_error, Reply, plain, MediaCall}
use aether_kiri.Dispatch.State.{
  World, Action, pure, ◌>>=◌, ◌>>◌, gets, asks, modify_world, outside, deref, on_ok,
}
use aether_kiri.Dispatch.Errors.{set_legacy_error, ensure_legacy, handle_error}
use aether_kiri.Dispatch.Callbacks.{media_call}
use aether_kiri.Dispatch.Route.{Api, reject, accept, locked}

module _ {E : Type 0} where
  -- std::unordered_map::emplace: a present key keeps its value
  unfoldable pub emplace : ℕ → ℕ → World E → World E
  emplace media owner w =
      if is_some (lookup media w.media_handles)
      then w
      else record w { media_handles = insert media owner w.media_handles }

  unfoldable pub open_media : ℕ → Text → Action E Reply
  unfolding set_legacy_error ensure_legacy emplace
  open_media address path = do
    ready ← ensure_legacy
    on_ok ready.result do
      services ← deref (← asks (λ w. w.services))
      legacy ← gets (λ h. h.legacy)
      (result, media) ←
          outside (λ env. let (env', r, m) = services.media_open env legacy path in (env', (r, m)))
      set_legacy_error result (text "legacy media player failed to open media")
      on_ok result (
          if media == 0
          then handle_error internal_error (text "legacy media player returned an empty handle")
          else do
            modify_world (emplace media address)
            pure (record { result = ok; out = media ∷ [] }))

  unfoldable pub engine_media_open : ℕ → Option Text → Bool → Api E
  unfolding locked open_media
  engine_media_open address path out_given =
      let name = option_or path [] in
      if is_empty name || not out_given
      then reject invalid_argument (text "media path and output handle are required")
      else locked address (open_media address name)

  -- The owner of a media handle, locked.
  unfoldable pub with_owner : ℕ → Action E Reply → Api E
  unfolding locked
  with_owner media body w = elim (lookup media w.media_handles) [
    | none ↦ reject invalid_argument (text "media handle is invalid or already destroyed") w
    | some owner ↦ locked owner body w
  ]

  unfoldable pub close_media : ℕ → Action E Reply
  unfolding set_legacy_error
  close_media media = do
    services ← deref (← asks (λ w. w.services))
    result ← outside (λ env. services.media_destroy env media)
    modify_world (λ w. record w { media_handles = remove media w.media_handles })
    set_legacy_error result (text "legacy media player failed to close media")
    pure (plain result)

  unfoldable pub engine_media_destroy : ℕ → Api E
  unfolding with_owner close_media
  engine_media_destroy media =
      if media == 0 then accept (plain ok) else with_owner media (close_media media)

  unfoldable pub route_media_body : ℕ → Text → MediaCall → Action E Reply
  unfolding media_call set_legacy_error
  route_media_body media operation c = do
    reply ← media_call c media
    set_legacy_error reply.result operation
    pure reply

  unfoldable pub route_media : ℕ → Text → MediaCall → Api E
  unfolding with_owner route_media_body
  route_media media operation c =
      if media == 0
      then reject invalid_argument (text "media handle is null")
      else with_owner media (route_media_body media operation c)

  unfoldable pub engine_media_play : ℕ → Api E
  unfolding route_media
  engine_media_play media =
      route_media media (text "legacy media player failed to play media") MediaCall.play

  unfoldable pub engine_media_pause : ℕ → Api E
  unfolding route_media
  engine_media_pause media =
      route_media media (text "legacy media player failed to pause media") MediaCall.pause

  unfoldable pub engine_media_seek : ℕ → ℤ → Api E
  unfolding route_media
  engine_media_seek media position_ms =
      route_media media (text "legacy media player failed to seek media")
        (MediaCall.seek position_ms)

  unfoldable pub engine_media_set_rate : ℕ → ℕ → Api E
  unfolding route_media
  engine_media_set_rate media rate =
      route_media media (text "legacy media player failed to set playback rate")
        (MediaCall.set_rate rate)

  unfoldable pub engine_media_set_volume : ℕ → ℕ → Api E
  unfolding route_media
  engine_media_set_volume media volume =
      route_media media (text "legacy media player failed to set volume")
        (MediaCall.set_volume volume)

  unfoldable pub engine_media_get_state : ℕ → Api E
  unfolding route_media
  engine_media_get_state media =
      route_media media (text "legacy media player failed to read media state") MediaCall.get_state

  unfoldable pub engine_media_get_subtitle_tracks_json : ℕ → ℕ → Api E
  unfolding route_media
  engine_media_get_subtitle_tracks_json media size =
      route_media media (text "legacy media player failed to list subtitle tracks")
        (MediaCall.get_subtitle_tracks_json size)

  unfoldable pub engine_media_extract_subtitle : ℕ → ℤ → Option Text → Api E
  unfolding route_media
  engine_media_extract_subtitle media stream path =
      route_media media (text "legacy media player failed to extract subtitles")
        (MediaCall.extract_subtitle stream path)

  unfoldable pub engine_media_read_frame_rgba : ℕ → ℕ → Api E
  unfolding route_media
  engine_media_read_frame_rgba media size =
      route_media media (text "legacy media player failed to read video frame")
        (MediaCall.read_frame_rgba size)
