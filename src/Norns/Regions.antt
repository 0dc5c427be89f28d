-- ===== src/Norns/Regions.antt =====
-- The buffer and disk operations of `NornsSoftcut` (its "Tier B").
use softcut_py.Base.{
  ℕ, ◌/◌, String, Bool, Option, none, some, List, [], ◌∷◌, if◌then◌else◌, length, get_elem?, set,
  replicate, take, min,
}
use softcut_py.Base.Int.{ℤ, pos, negsuc, pos_part, ◌+ℤ◌, ◌-ℤ◌, ltb_ℤ, min_ℤ, max_ℤ, int_eq}
use softcut_py.Base.Slice.{slice, slice_from}
use softcut_py.Base.Dict.{lookup}
use softcut_py.Base.Exec.{
  Exec, Result, ok, pure, lift, gets, or_raise, ◌>>=◌, modify, for_each, and_then, key_error,
}
use mathlib.Core.List
use softcut_py.Platform.{Platform}
use softcut_py.Buffers.{buffer_apply, buffer_extract_channel}
use softcut_py.Wav.{Disk, Audio, read_wav, write_wav, flat}
use softcut_py.Norns.{Host, buffer_numbers, frames}

-- `frames[0::2] = a; frames[1::2] = b`, for two lists of one length
unfoldable pub interleave : {A : Type 0} → List A → List A → List A
interleave (a ∷ left) (b ∷ right) = a ∷ b ∷ interleave left right
interleave [] right = []
interleave (a ∷ left) [] = []

module _ (p : Platform) where
  open p use {F, S, lit, fmul, flt, round_int, trunc, s_lit, narrow}

  abbrev pub on_disk : {A : Type 0} → Exec Disk A → Exec (Host p) A
  on_disk m h = ((m h.disk).0, record h { disk = (m h.disk).1 })

  -- `float(dur) < 0`
  abbrev pub is_negative : F → Bool
  is_negative x = flt x (lit (pos 0))

  abbrev pub frames_of : F → Exec (Host p) ℤ
  frames_of seconds h = (frames p seconds h, h)

  -- `self._buf[b]`: the place of the array
  unfoldable pub array_of : ℤ → Exec (Host p) ℕ
  array_of b h = or_raise (lookup b h.buf) key_error h

  abbrev pub samples_or : Option (List S) → List S
  samples_or none = []
  samples_or (some xs) = xs

  -- The samples of an array of the host
  abbrev pub samples_at : ℕ → Host p → List S
  samples_at a h = samples_or (get_elem? h.engine.arrays a)

  abbrev pub store_array : ℕ → List S → Host p → Host p
  store_array a xs h = record h { engine = record h.engine { arrays = set h.engine.arrays a xs } }

  -- `_core._buffer_apply` on an array of the host, in place
  unfoldable pub apply_at : ℕ → ℤ → Option (List S) → F → F → ℤ → ℤ → Exec (Host p) Unit
  unfolding buffer_apply
  apply_at a start src preserve mix fade count h =
      (lift (buffer_apply p (samples_at a h) start src (narrow preserve) (narrow mix) fade count)
          >>= λ xs. modify (store_array a xs))
        h

  -- `_apply(buf, start_frame, src, preserve, mix, fade_frames)`
  unfoldable pub apply : ℕ → ℤ → List S → F → F → ℤ → Exec (Host p) Unit
  unfolding apply_at
  apply a start_frame src preserve mix fade_frames =
      apply_at a start_frame (some src) preserve mix fade_frames (negsuc 0)

  -- The frames of a read: what is left from `s0` on, or the duration if that is less.
  unfoldable pub read_frames : ℕ → ℤ → F → ℕ → Result ℤ
  read_frames total s0 dur file_sr =
      let avail = max_ℤ (pos total -ℤ s0) (pos 0) in
      if is_negative dur
      then ok avail
      else and_then (round_int (fmul dur (lit (pos file_sr)))) λ n. ok (min_ℤ n avail)

  -- `_channel(data, channels, col, start_src, dur, file_sr)`; a division by no channels gives 0.
  unfoldable pub channel : Audio p → ℕ → F → F → Result (List S)
  unfolding read_frames buffer_extract_channel
  channel a col start_src dur =
      let total = length a.samples / a.channels in
      and_then (round_int (fmul start_src (lit (pos a.rate)))) λ s0.
        and_then (read_frames total s0 dur a.rate) λ n.
          let out = replicate (pos_part n) (s_lit (pos 0)) in
          if ltb_ℤ (pos 0) n
          then buffer_extract_channel p out a.samples a.channels col s0 total
          else ok out

  -- `min(max(int(ch_src), 1), channels) - 1`
  abbrev pub source_column : ℤ → ℕ → ℕ
  source_column ch_src channels = pos_part (min_ℤ (max_ℤ ch_src (pos 1)) (pos channels) -ℤ pos 1)

  unfoldable pub buffer_read_mono : String → F → F → F → ℤ → ℤ → F → F → Exec (Host p) Unit
  unfolding read_wav channel array_of frames apply
  buffer_read_mono file start_src start_dst dur ch_src ch_dst preserve mix = do
    d ← gets (λ h. h.disk)
    audio ← lift (read_wav p d file)
    src ← lift (channel audio (source_column ch_src audio.channels) start_src dur)
    a ← array_of ch_dst
    d0 ← frames_of start_dst
    apply a d0 src preserve mix (pos 0)

  unfoldable pub buffer_read_stereo : String → F → F → F → F → F → Exec (Host p) Unit
  unfolding read_wav channel array_of frames apply
  buffer_read_stereo file start_src start_dst dur preserve mix = do
    d ← gets (λ h. h.disk)
    audio ← lift (read_wav p d file)
    d0 ← frames_of start_dst
    for_each buffer_numbers λ b.
        lift (channel audio (source_column b audio.channels) start_src dur) >>= λ src.
        array_of b >>= λ a. apply a d0 src preserve mix (pos 0)

  -- `buf[s0:]`, or `buf[s0 : s0 + self._frames(dur)]`
  unfoldable pub segment : List S → ℤ → F → Exec (Host p) (List S)
  unfolding frames
  segment xs s0 dur =
      if is_negative dur
      then pure (slice_from xs s0)
      else frames_of dur >>= λ n. pure (slice xs s0 (s0 +ℤ n))

  unfoldable pub buffer_write_mono : String → F → F → ℤ → Exec (Host p) Unit
  unfolding array_of frames segment write_wav
  buffer_write_mono file first dur ch = do
    a ← array_of ch
    s0 ← frames_of first
    xs ← gets (samples_at a)
    seg ← segment xs s0 dur
    sr ← gets (λ h. h.sample_rate)
    rate ← lift (trunc sr)
    on_disk (write_wav p file (flat p seg) rate none)

  unfoldable pub buffer_write_stereo : String → F → F → Exec (Host p) Unit
  unfolding array_of frames segment interleave write_wav
  buffer_write_stereo file first dur = do
    s0 ← frames_of first
    left ← array_of (pos 1)
    right ← array_of (pos 2)
    xs ← gets (samples_at left)
    ys ← gets (samples_at right)
    a ← segment xs s0 dur
    b ← segment ys s0 dur
    let n = min (length a) (length b)
    sr ← gets (λ h. h.sample_rate)
    rate ← lift (trunc sr)
    on_disk (write_wav p file (flat p (interleave (take n a) (take n b))) rate (some (pos 2)))

  -- The frames that `_clear_region` writes.
  unfoldable pub clear_count : ℕ → ℤ → F → Exec (Host p) ℤ
  unfolding frames
  clear_count n s0 dur = if is_negative dur then pure (pos n -ℤ s0) else frames_of dur

  -- `_clear_region(ch, start, dur, fade_time, preserve)`
  unfoldable pub clear_region : ℤ → F → F → F → F → Exec (Host p) Unit
  unfolding array_of frames clear_count apply_at
  clear_region ch first dur fade_time preserve = do
    a ← array_of ch
    s0 ← frames_of first
    n ← gets (λ h. length (samples_at a h))
    cnt ← clear_count n s0 dur
    fade ← frames_of fade_time
    apply_at a s0 none preserve (lit (pos 0)) fade (max_ℤ cnt (pos 0))

  unfoldable pub buffer_clear_channel : ℤ → Exec (Host p) Unit
  unfolding clear_region
  buffer_clear_channel ch =
      clear_region ch (lit (pos 0)) (lit (negsuc 0)) (lit (pos 0)) (lit (pos 0))

  unfoldable pub buffer_clear : Exec (Host p) Unit
  unfolding buffer_clear_channel
  buffer_clear = for_each buffer_numbers buffer_clear_channel

  unfoldable pub buffer_clear_region : F → F → F → F → Exec (Host p) Unit
  unfolding clear_region
  buffer_clear_region first dur fade_time preserve =
      for_each buffer_numbers (λ b. clear_region b first dur fade_time preserve)

  unfoldable pub buffer_clear_region_channel : ℤ → F → F → F → F → Exec (Host p) Unit
  unfolding clear_region
  buffer_clear_region_channel ch first dur fade_time preserve =
      clear_region ch first dur fade_time preserve

  -- The region that `buffer_copy_mono` copies out: `src_buf[ss : ss + max(cnt, 0)]`, and reversed
  -- if asked.
  unfoldable pub copied : List S → ℤ → ℤ → Bool → List S
  copied xs ss cnt backwards =
      let src = slice xs ss (ss +ℤ max_ℤ cnt (pos 0)) in if backwards then List.reverse src else src

  unfoldable pub buffer_copy_mono : ℤ → ℤ → F → F → F → F → F → Bool → Exec (Host p) Unit
  unfolding array_of frames clear_count copied apply
  buffer_copy_mono src_ch dst_ch start_src start_dst dur fade_time preserve backwards = do
    a ← array_of src_ch
    xs ← gets (samples_at a)
    ss ← frames_of start_src
    cnt ← clear_count (length xs) ss dur
    let src = copied xs ss cnt backwards
    b ← array_of dst_ch
    d0 ← frames_of start_dst
    fade ← frames_of fade_time
    apply b d0 src preserve (lit (pos 1)) fade

  unfoldable pub buffer_copy_stereo : F → F → F → F → F → Bool → Exec (Host p) Unit
  unfolding buffer_copy_mono
  buffer_copy_stereo start_src start_dst dur fade_time preserve backwards =
      for_each buffer_numbers
        λ b. buffer_copy_mono b b start_src start_dst dur fade_time preserve backwards
