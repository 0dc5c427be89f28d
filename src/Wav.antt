-- ===== src/Wav.antt =====
-- WAV files: src/softcut/_wavio.py over the sample conversions of src/softcut/_core.cpp. The stdlib
-- `wave` module is taken at the level of its parameters and its raw frames.
pub mod Pcm
pub mod RoundTrip
use softcut_py.Base.{
  ℕ, zero, suc, ◌+◌, ◌-◌, ◌*◌, ◌/◌, ◌%◌, ◌^◌, String, Bool, true, false, not, ◌&&◌, ◌||◌, Option,
  none, some, List, [], ◌∷◌, ◌==◌, string_eq, nat_eq, if◌then◌else◌, length, replicate, range_from,
  min, ltb,
}
use softcut_py.Base.Int.{ℤ, pos, negsuc, pos_part, ltb_ℤ, eqb_ℤ}
use softcut_py.Base.Exec.{
  Error, Result, ok, err, and_then, Exec, lift, ◌>>=◌, value_error, type_error, wave_error,
  eof_error, struct_error, zero_division_error,
}
use softcut_py.Platform.{Platform}
use softcut_py.Buffers.{buffer_apply, buffer_extract_channel}
use Pcm.{pcm_decode, pcm_encode_s16}

-- What `wave` reads from a file's header, and its frames.
pub record WavFile : Type 0 where
  pub channels : ℕ
  pub width : ℕ
  pub rate : ℕ
  pub raw : List ℕ

-- `content` is what opening a path for reading gives, `refused` the error of opening it for writing.
pub record Disk : Type 0 where
  pub content : String → Result WavFile
  pub refused : String → Option Error

-- A buffer as `memoryview` shows it; `columns` is `shape[1]` of a 2-D one.
pub record View (A : Type 0) : Type 0 where
  pub format : String
  pub ndim : ℕ
  pub columns : ℕ
  pub contiguous : Bool
  pub samples : List A

abbrev pub put_file : String → Result WavFile → Disk → Disk
put_file path f d = record d { content = λ q. if q == path then f else d.content q }

-- The channel count of `write_wav`: the argument, or else the shape's, or else 1.
abbrev pub wanted_channels : Option ℤ → Option ℕ → ℤ
wanted_channels (some c) inferred = c
wanted_channels none (some c) = pos c
wanted_channels none none = pos 1

-- `inferred is not None and channels != inferred`
abbrev pub contradicts : ℤ → Option ℕ → Bool
contradicts c none = false
contradicts c (some n) = not (eqb_ℤ c (pos n))

unfoldable pub channel_count : Option ℤ → Option ℕ → Result ℕ
channel_count given inferred =
    let c = wanted_channels given inferred in
    if ltb_ℤ c (pos 1)
    then err value_error
    else if contradicts c inferred
    then err value_error
    else ok (pos_part c)

module _ (p : Platform) where
  open p use {S, s_lit, lit, fdiv, narrow}

  -- A decoded file: interleaved samples, channels and sample rate.
  pub record Audio : Type 0 where
    pub samples : List S
    pub channels : ℕ
    pub rate : ℕ

  unfoldable pub decode_file : WavFile → Result Audio
  unfolding pcm_decode
  decode_file w =
      if not (w.width == 1 || w.width == 2 || w.width == 3 || w.width == 4)
      then err value_error
      else let empty = replicate (length w.raw / w.width) (s_lit (pos 0)) in
        ok (record {
          samples = pcm_decode p empty w.raw w.width;
          channels = w.channels;
          rate = w.rate;
        })

  unfoldable pub read_wav : Disk → String → Result Audio
  unfolding decode_file
  read_wav d path = and_then (d.content path) decode_file

  -- `len(data) // channels if channels else 0`
  abbrev pub frame_count : Audio → ℕ
  frame_count a = length a.samples / a.channels

  -- One round of the loop of `read_wav_mono`: preserve 1 and mix 1 add the channel to the sum.
  unfoldable pub add_channel : Audio → ℕ → List S → Result (List S)
  unfolding buffer_extract_channel buffer_apply
  add_channel a col mono =
      let one = s_lit (pos 1) in
      let frames = frame_count a in
      let scratch = replicate frames (s_lit (pos 0)) in
      and_then (buffer_extract_channel p scratch a.samples a.channels col (pos 0) frames)
        λ channel. buffer_apply p mono (pos 0) (some channel) one one (pos 0) (negsuc 0)

  unfoldable pub add_channels : Audio → List ℕ → List S → Result (List S)
  unfolding add_channel
  add_channels a [] mono = ok mono
  add_channels a (col ∷ cols) mono = and_then (add_channel a col mono) (add_channels a cols)

  -- The averaging that follows the single-channel return; `1.0 / channels` raises for 0 channels.
  unfoldable pub average_channels : Audio → Result (List S × ℕ)
  unfolding add_channels buffer_apply
  average_channels a =
      let frames = frame_count a in
      and_then (add_channels a (range_from 0 a.channels) (replicate frames (s_lit (pos 0)))) λ sum.
        if a.channels == 0
        then err zero_division_error
        else let share = narrow (fdiv (lit (pos 1)) (lit (pos a.channels))) in
          and_then (buffer_apply p sum (pos 0) none share (s_lit (pos 0)) (pos 0) (pos frames))
            λ mono. ok (mono, a.rate)

  unfoldable pub read_wav_mono : Disk → String → Result (List S × ℕ)
  unfolding read_wav average_channels
  read_wav_mono d path =
      and_then (read_wav d path)
        λ a. if a.channels == 1 then ok (a.samples, a.rate) else average_channels a

  -- The checks of `write_wav` on its buffer: the channel count, or an error.
  unfoldable pub check_view : View S → Option ℤ → Result ℕ
  unfolding channel_count
  check_view v channels =
      if not (v.format == "f")
      then err value_error
      else if not (v.ndim == 1 || v.ndim == 2)
      then err value_error
      else and_then (channel_count channels (if v.ndim == 2 then some v.columns else none)) λ c.
        if not v.contiguous
        then err type_error
        else if not (length v.samples % c == 0)
        then err value_error
        else ok c

  -- The fields of the header that `wave` packs: twice the channels as 16 bits, and the rate, the bytes per
  -- second and 36 more than the bytes of the frames as 32 bits.
  abbrev pub header_fits : ℕ → ℕ → ℕ → Bool
  header_fits channels rate bytes =
      ltb (channels * 2) (2 ^ 16)
      && (ltb rate (2 ^ 32) && (ltb (channels * rate * 2) (2 ^ 32) && ltb (36 + bytes) (2 ^ 32)))

  -- The `with` block: a bad rate, or a header that `struct` cannot pack, raises after the file is open, and leaves it without a header.
  unfoldable pub write_frames : String → ℤ → ℕ → List S → Exec Disk Unit
  unfolding pcm_encode_s16
  write_frames path rate channels samples d = elim (d.refused path) [
    | some e ↦ (err e, d)
    | none ↦
        if ltb_ℤ rate (pos 1)
        then (err wave_error, put_file path (err eof_error) d)
        else if not (header_fits channels (pos_part rate) (length (pcm_encode_s16 p samples)))
        then (err struct_error, put_file path (err eof_error) d)
        else let file : WavFile = record {
          channels = channels;
          width = 2;
          rate = pos_part rate;
          raw = pcm_encode_s16 p samples;
        } in
          (ok tt, put_file path (ok file) d)
  ]

  unfoldable pub write_wav : String → View S → ℤ → Option ℤ → Exec Disk Unit
  unfolding check_view write_frames
  write_wav path v rate channels = do
    count ← lift (check_view v channels)
    write_frames path rate count v.samples

  -- A flat float32 array, as `memoryview` shows it.
  abbrev pub flat : List S → View S
  flat xs = record { format = "f"; ndim = 1; columns = 0; contiguous = true; samples = xs }
