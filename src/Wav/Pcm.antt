-- ===== src/Wav/Pcm.antt =====
-- The sample formats of a WAV file: `_pcm_decode` and `_pcm_encode_s16` of src/softcut/_core.cpp,
-- and `float_to_s16` of src/shared/buffer_ops.hpp.
use softcut_py.Base.{
  ℕ, suc, ◌+◌, ◌-◌, ◌*◌, ◌/◌, ◌%◌, List, [], ◌∷◌, Option, none, some, if◌then◌else◌, length, ltb,
  eqb, arith, get_or,
}
use softcut_py.Base.Int.{ℤ, pos, negsuc, ltb_ℤ, ◌≤ℤ◌}
use softcut_py.Platform.{Platform}

-- The value of a `bits`-bit pattern as a signed integer.
unfoldable pub signed : ℕ → ℕ → ℤ
signed half n = if ltb n half then pos n else negsuc (half + half - 1 - n)

-- The bits of `static_cast<uint16_t>(v)`, for a `v` that an `int16_t` holds.
unfoldable pub unsigned16 : ℤ → ℕ
unsigned16 (pos n) = n % 65536
unsigned16 (negsuc n) = 65535 - n % 65536

-- Byte `k` of the frames, which `r[...]` reads; bytes are below 256.
abbrev byte : List ℕ → ℕ → ℕ
byte raw k = get_or raw k 0

abbrev s16_at : List ℕ → ℕ → ℤ
s16_at raw i = signed 32768 (byte raw (2 * i) + byte raw (2 * i + 1) * 256)

module _ (p : Platform) where
  open p use {S, s_lit, s_add, s_sub, s_mul, s_div, s_lt, lround}

  -- Sample `i` of the frames, by the width of a sample; `none` stands for the `default:` case.
  unfoldable pub sample_at : ℕ → List ℕ → ℕ → Option S
  unfolding signed
  sample_at width raw i =
      if eqb width 1
      then some (s_div (s_sub (s_lit (pos (byte raw i))) (s_lit (pos 128))) (s_lit (pos 128)))
      else if eqb width 2
      then some (s_div (s_lit (s16_at raw i)) (s_lit (pos 32768)))
      else if eqb width 3
      then some (
          s_div
            (s_lit (
              signed 8388608
                (byte raw (3 * i) + byte raw (3 * i + 1) * 256 + byte raw (3 * i + 2) * 65536)))
            (s_lit (pos 8388608)))
      else if eqb width 4
      then some (
          s_div
            (s_lit (
              signed 2147483648 (
                byte raw (4 * i)
                + byte raw (4 * i + 1) * 256
                + byte raw (4 * i + 2) * 65536
                + byte raw (4 * i + 3) * 16777216)))
            (s_lit (pos 2147483648)))
      else none

  abbrev pub or_old : Option S → S → S
  or_old none o = o
  or_old (some x) o = x

  -- The loops of `_pcm_decode` over `out`, from sample `i` on, while whole samples are left.
  unfoldable pub decode_loop : ℕ → List ℕ → ℕ → List S → List S
  unfolding sample_at
  decode_loop width raw i [] = []
  decode_loop width raw i (o ∷ out) =
      (if ltb i (length raw / width) then or_old (sample_at width raw i) o else o)
      ∷ decode_loop width raw (suc i) out

  -- The new contents of `out`
  unfoldable pub pcm_decode : List S → List ℕ → ℕ → List S
  unfolding decode_loop
  pcm_decode out raw width = decode_loop width raw 0 out

  unfoldable pub float_to_s16 : S → ℤ
  float_to_s16 x =
      let low = s_lit (negsuc 0) in
      let high = s_lit (pos 1) in
      let v = if s_lt x low then low else if s_lt high x then high else x in
      let s = lround (s_mul v (s_lit (pos 32767))) in
      let s' = if ltb_ℤ s (negsuc 32767) then negsuc 32767 else s in
      if ltb_ℤ (pos 32767) s' then pos 32767 else s'

  -- The low byte, then the high byte, of each sample.
  unfoldable pub pcm_encode_s16 : List S → List ℕ
  unfolding float_to_s16 unsigned16
  pcm_encode_s16 [] = []
  pcm_encode_s16 (x ∷ xs) =
      let v = unsigned16 (float_to_s16 x) in (v % 256) ∷ ((v / 256) % 256) ∷ pcm_encode_s16 xs

  -- Every sample, nan included, comes out within the range of an `int16_t`.
  pub float_to_s16_bounds :
      (x : S) → (negsuc 32767 ≤ℤ float_to_s16 x) × (float_to_s16 x ≤ℤ pos 32767)
  unfolding float_to_s16
  float_to_s16_bounds x = ground arith
