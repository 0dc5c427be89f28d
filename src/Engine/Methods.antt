-- ===== src/Engine/Methods.antt =====
-- The methods of `softcut.Engine`.
use softcut_py.Base.{
  ℕ, ◌+◌, ◌*◌, String, Bool, true, false, not, ◌&&◌, ◌||◌, Option, none, some, List, [], ◌∷◌, ◌++◌,
  ◌==◌, string_eq, if◌then◌else◌, length, get_elem?, get_or, set, replicate, range_from,
}
use softcut_py.Base.Int.{ℤ, pos, pos_part, ltb_ℤ}
use softcut_py.Base.Exec.{
  Exec, Result, ok, err, pure, lift, gets, ◌>>=◌, ◌>>◌, modify, raise_if, for_each, and_then,
  index_error, value_error,
}
use softcut_py.Platform.{Platform, as_int32, set_sample_rate}
use softcut_py.Sizes.{next_power_of_two}
use softcut_py.Voice.{new_voice, perform}
use softcut_py.Engine.{Engine, voice_at, cut_to, set_voice_buffer}

abbrev pub in_range : ℤ → ℕ → Bool
in_range i n = not (ltb_ℤ i (pos 0)) && ltb_ℤ i (pos n)

module _ (p : Platform) where
  open p use {F, S, lit, fadd, fmul, round_int, s_lit, narrow, widen, active_position}

  -- `_zeros(n)` in a new array; `bytes` refuses a negative size.
  unfoldable pub zeros : ℤ → Exec (Engine p) ℕ
  zeros n e = if ltb_ℤ n (pos 0) then (err value_error, e) else (
    ok (length e.arrays),
    record e { arrays = e.arrays ++ (replicate (pos_part n) (s_lit (pos 0)) ∷ []) },
  )

  -- `Engine.__init__`, with the checks of `_Engine` and of `Voice`.
  unfoldable pub new_engine : ℤ → F → String → ℤ → ℤ → String → Result (Engine p)
  unfolding new_voice as_int32 perform
  new_engine voices sample_rate mode block_size out_channels quirks =
      if ltb_ℤ voices (pos 1)
      then err value_error
      else if not (mode == "duplex" || mode == "playback")
      then err value_error
      else if not (quirks == "upstream" || quirks == "fixed")
      then err value_error
      else and_then (as_int32 block_size) λ block. and_then (as_int32 out_channels) λ channels.
        if ltb_ℤ block (pos 1)
        then err value_error
        else if ltb_ℤ channels (pos 1)
        then err value_error
        else let n = pos_part voices in
          let sr = narrow sample_rate in
          -- `_Engine` sets the rate of each voice once more
          let voice = perform p (set_sample_rate sr) (new_voice p sr (quirks == "fixed")) in
          ok (record {
            voices = replicate n voice;
            queue = [];
            osc_queue = [];
            running = false;
            fb = replicate (n * n) (s_lit (pos 0));
            prev_out = replicate n (replicate (pos_part block) (s_lit (pos 0)));
            cur_out = replicate n (replicate (pos_part block) (s_lit (pos 0)));
            arrays = [];
            sample_rate = sample_rate;
            mode = mode;
            block_size = block;
            out_channels = channels;
          })

  -- The frames that `allocate` is asked for: exactly one of `seconds` and `frames` is given.
  unfoldable pub requested_frames : Option F → Option ℤ → Exec (Engine p) ℤ
  requested_frames none none e = (err value_error, e)
  requested_frames (some seconds) (some frames) e = (err value_error, e)
  requested_frames none (some frames) e = (ok frames, e)
  requested_frames (some seconds) none e = lift (round_int (fmul seconds e.sample_rate)) e

  -- `for v in voices: v.buffer = buf`, one array for all.
  unfoldable pub share_array : List ℕ → ℕ → Exec (Engine p) Unit
  unfolding set_voice_buffer
  share_array places a = for_each places (λ i. set_voice_buffer p i a)

  -- `[_zeros(n) for _ in voices]`
  unfoldable pub zeros_each : ℤ → List ℕ → Exec (Engine p) (List ℕ)
  unfolding zeros
  zeros_each n [] = pure []
  zeros_each n (i ∷ places) = do a ← zeros n; rest ← zeros_each n places; pure (a ∷ rest)

  -- `for v, buf in zip(voices, bufs): v.buffer = buf`
  unfoldable pub assign_each : List ℕ → List ℕ → Exec (Engine p) Unit
  unfolding set_voice_buffer
  assign_each (i ∷ places) (a ∷ arrays) = do set_voice_buffer p i a; assign_each places arrays
  assign_each [] _ = pure tt
  assign_each (i ∷ places) [] = pure tt

  pub data Allocated : Type 0 where
    shared_array : ℕ → Allocated
    own_arrays : List ℕ → Allocated

  -- The rest of `allocate`, once the length is known: one array for all voices, or one for each.
  unfoldable pub allocate_arrays : Bool → ℤ → List ℕ → Exec (Engine p) Allocated
  unfolding share_array zeros zeros_each assign_each
  allocate_arrays true n places = do a ← zeros n; share_array places a; pure (shared_array a)
  allocate_arrays false n places = do
    arrays ← zeros_each n places
    assign_each places arrays
    pure (own_arrays arrays)

  unfoldable pub allocate : Option F → Option ℤ → Bool → Exec (Engine p) Allocated
  unfolding requested_frames allocate_arrays
  allocate seconds frames is_shared = do
    requested ← requested_frames seconds frames
    raise_if (ltb_ℤ requested (pos 1)) value_error
    places ← gets (λ e. range_from 0 (length e.voices))
    allocate_arrays is_shared (pos (next_power_of_two requested)) places

  -- `position` of a voice
  unfoldable pub position_at : ℕ → Engine p → F
  position_at i e = elim (get_elem? e.voices i) [
    | none ↦ lit (pos 0)
    | some v ↦ widen (active_position v.dsp)
  ]

  -- `sync(follow, lead, offset)`: the voices are found by Python's indexing.
  unfoldable pub sync : ℤ → ℤ → F → Exec (Engine p) Unit
  unfolding voice_at position_at cut_to
  sync follow lead offset = do
    i ← voice_at p follow
    j ← voice_at p lead
    position ← gets (position_at j)
    modify (cut_to p i (fadd position offset))

  -- The place in `fb`, if both voices exist.
  unfoldable pub fb_place : ℤ → ℤ → Engine p → Result ℕ
  unfolding as_int32
  fb_place src dst e = and_then (as_int32 src) λ src. and_then (as_int32 dst) λ dst.
      if in_range src (length e.voices) && in_range dst (length e.voices)
      then ok (pos_part src * length e.voices + pos_part dst)
      else err index_error

  -- `feedback(src, dst, amount)` and `feedback(src, dst)`
  unfoldable pub set_feedback : ℤ → ℤ → F → Exec (Engine p) Unit
  unfolding fb_place
  set_feedback src dst amount e =
      (lift (fb_place src dst e) >>= λ k.
      modify (λ e. record e { fb = set e.fb k (narrow amount) }))
        e

  unfoldable pub get_feedback : ℤ → ℤ → Exec (Engine p) F
  unfolding fb_place
  get_feedback src dst e =
      (lift (fb_place src dst e) >>= λ k. gets (λ e. widen (get_or e.fb k (s_lit (pos 0))))) e
