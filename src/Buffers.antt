-- ===== src/Buffers.antt =====
-- The sample arithmetic that src/softcut/norns.py and _wavio.py call: `_buffer_apply` and
-- `_buffer_extract_channel` of src/softcut/_core.cpp, and the functions of src/shared/buffer_ops.hpp
-- that they wrap. `long` is taken as 64 bits wide.
pub mod Region
pub mod Blend
use softcut_py.Base.{
  ℕ, zero, suc, ◌+◌, ◌-◌, ◌*◌, ◌/◌, Bool, true, false, ◌&&◌, Option, none, some, List, [], ◌∷◌,
  if◌then◌else◌, length, get_or, set, ltb, leb, min,
}
use softcut_py.Base.Int.{ℤ, pos, negsuc, pos_part, neg_part, ◌+ℤ◌, ◌-ℤ◌, ltb_ℤ, leb_ℤ, min_ℤ, max_ℤ}
use softcut_py.Base.Exec.{Result, ok, and_then}
use softcut_py.Platform.{Platform, as_int64}

-- `off`, `start`, `n` and `f` as `apply_to_buffer` computes them.
unfoldable pub trimmed : ℤ → ℕ
trimmed start = neg_part start

unfoldable pub written_frames : ℕ → ℤ → ℤ → ℕ
unfolding trimmed ◌-ℤ◌
written_frames bframes start nsrc =
    pos_part (min_ℤ (nsrc -ℤ pos (trimmed start)) (pos bframes -ℤ pos (pos_part start)))

unfoldable pub fade_frames : ℤ → ℕ → ℕ
fade_frames fade n = pos_part (min_ℤ fade (pos (n / 2)))

module _ (p : Platform) where
  open p use {S, s_lit, s_add, s_sub, s_mul, s_div}

  -- `fade_env_at(i, n, f)`, for `0 <= i < n`
  unfoldable pub fade_env_at : ℕ → ℕ → ℕ → S
  fade_env_at i n zero = s_lit (pos 1)
  fade_env_at i n f =
      if ltb i f
      then s_div (s_lit (pos i)) (s_lit (pos f))
      else if leb (n - f) i
      then s_div (s_lit (pos (n - 1 - i))) (s_lit (pos f))
      else s_lit (pos 1)

  -- `src ? src[off + i] : 0.0f`
  abbrev pub or_silence : Option S → S
  or_silence none = s_lit (pos 0)
  or_silence (some x) = x

  -- One sample of the faded write. `none` is the null source.
  unfoldable pub blend : Option S → S → S → S → S → S
  blend src preserve mix env d =
      let target = s_add (s_mul d preserve) (s_mul (or_silence src) mix) in
      s_add (s_mul d (s_sub (s_lit (pos 1)) env)) (s_mul target env)

  -- The three loops for `f <= 0`. `std::fill` is taken only with `preserve == 0`.
  unfoldable pub blend_plain : Option S → S → S → S → S
  blend_plain none preserve mix d =
      if p.s_eq preserve (s_lit (pos 0)) then s_lit (pos 0) else s_mul d preserve
  blend_plain (some x) preserve mix d = s_add (s_mul d preserve) (s_mul x mix)

  -- The sample of the source that a round reads.
  unfoldable pub source_at : Option (List S) → ℕ → Option S
  source_at none i = none
  source_at (some src) i = some (get_or src i (s_lit (pos 0)))

  -- What a write of `n` frames with the edge fade `f` puts at frame `i` of its region, over `d`.
  unfoldable pub written : Option (List S) → S → S → ℕ → ℕ → ℕ → ℕ → S → S
  unfolding blend blend_plain source_at fade_env_at
  written src preserve mix f n off i d =
      let sv = source_at src (off + i) in
      if ltb 0 f then blend sv preserve mix (fade_env_at i n f) d else blend_plain sv preserve mix d

  -- The loops of `apply_to_buffer` from round `i` on, with `left` rounds to go.
  unfoldable pub apply_loop : Option (List S) → S → S → ℕ → ℕ → ℕ → ℕ → ℕ → ℕ → List S → List S
  apply_loop src preserve mix f n start off zero i buf = buf
  apply_loop src preserve mix f n start off (suc left) i buf =
      let v = written src preserve mix f n off i (get_or buf (start + i) (s_lit (pos 0))) in
      apply_loop src preserve mix f n start off left (suc i) (set buf (start + i) v)

  -- `apply_to_buffer(buf, len(buf), start, src, nsrc, preserve, mix, fade)`
  unfoldable pub apply_to_buffer : List S → ℤ → Option (List S) → ℤ → S → S → ℤ → List S
  unfolding apply_loop written_frames fade_frames
  apply_to_buffer buf start src nsrc preserve mix fade =
      let n = written_frames (length buf) start nsrc in
      apply_loop src preserve mix (fade_frames fade n) n (pos_part start) (trimmed start) n 0 buf

  -- The frames that `_buffer_apply` asks for.
  unfoldable pub apply_count : Option (List S) → ℤ → ℤ
  apply_count src count =
      if leb_ℤ (pos 0) count then count else elim src [ none ↦ pos 0 | some s ↦ pos (length s) ]

  -- `_core._buffer_apply(dst, start, src, preserve, mix, fade, count)`: the new contents of `dst`.
  unfoldable pub buffer_apply : List S → ℤ → Option (List S) → S → S → ℤ → ℤ → Result (List S)
  unfolding apply_to_buffer apply_count as_int64
  buffer_apply dst start src preserve mix fade count = and_then (as_int64 start) λ start.
      and_then (as_int64 fade) λ fade.
        and_then (as_int64 count)
          λ count. ok (apply_to_buffer dst start src (apply_count src count) preserve mix fade)

  -- One frame of `extract_channel_into`, at the source frame `si`.
  unfoldable pub channel_sample : List S → ℕ → ℕ → ℤ → ℤ → S
  channel_sample frames channels col si total =
      if leb_ℤ (pos 0) si && ltb_ℤ si total
      then get_or frames (pos_part si * channels + col) (s_lit (pos 0))
      else s_lit (pos 0)

  -- The loop of `extract_channel_into`, from round `i` on, over the old contents of `out`.
  unfoldable pub extract_loop : List S → ℕ → ℕ → ℤ → ℤ → ℕ → List S → List S
  unfolding channel_sample ◌+ℤ◌
  extract_loop frames channels col s0 total i [] = []
  extract_loop frames channels col s0 total i (o ∷ out) =
      channel_sample frames channels col (s0 +ℤ pos i) total
      ∷ extract_loop frames channels col s0 total (suc i) out

  -- `_core._buffer_extract_channel(out, interleaved, channels, col, start, total)` with a `total`
  -- of 0 or more, as it is always called: the new contents of `out`.
  unfoldable pub buffer_extract_channel : List S → List S → ℕ → ℕ → ℤ → ℕ → Result (List S)
  unfolding extract_loop as_int64
  buffer_extract_channel out frames channels col start total =
      and_then (as_int64 start)
        λ start. ok (extract_loop frames channels col start (pos total) 0 out)
