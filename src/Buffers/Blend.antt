-- ===== src/Buffers/Blend.antt =====
-- What a write to a buffer wants in one frame, beside what src/shared/buffer_ops.hpp computes.
use softcut_py.Base.{
  ℕ, zero, suc, ◌+◌, ◌-◌, ◌≡◌, refl, Option, List, arith, if◌then◌else◌, ltb, leb, none, some, true,
}
use softcut_py.Base.Int.{pos}
use softcut_py.Platform.{Platform}
use softcut_py.Buffers.{written, source_at, blend, blend_plain, fade_env_at}

module _ (p : Platform) where
  open p use {S, s_lit, s_add, s_sub, s_mul, s_div}

  abbrev whole : ℕ → S
  whole n = s_lit (pos n)

  -- The share of the written sample at frame `i` of `n`: a line from 0 up and one down to 0, each `f` long.
  abbrev share : ℕ → ℕ → ℕ → S
  share f n i =
      if ltb i f
      then s_div (whole i) (whole f)
      else if leb (n - f) i
      then s_div (whole (n - 1 - i)) (whole f)
      else whole 1

  -- What frame `i` of a region of `n` is to hold over `d`: `d` scaled by `preserve` plus the source scaled by
  -- `mix`; with a fade of `f` frames at each end the share of that, and the rest of `d`. No source is
  -- silence, and without a fade it is not added at all.
  abbrev pub wanted : S → S → ℕ → ℕ → ℕ → Option S → S → S
  wanted preserve mix f n i none d =
      if ltb 0 f
      then s_add (s_mul d (s_sub (whole 1) (share f n i)))
          (s_mul (s_add (s_mul d preserve) (s_mul (whole 0) mix)) (share f n i))
      else if p.s_eq preserve (whole 0)
      then whole 0
      else s_mul d preserve
  wanted preserve mix f n i (some x) d =
      if ltb 0 f
      then s_add (s_mul d (s_sub (whole 1) (share f n i)))
          (s_mul (s_add (s_mul d preserve) (s_mul x mix)) (share f n i))
      else s_add (s_mul d preserve) (s_mul x mix)

  pub written-wanted :
      (src : Option (List S)) (preserve mix : S) (f n off i : ℕ) (d : S)
      → written p src preserve mix f n off i d
        ≡ wanted preserve mix f n i (source_at p src (off + i)) d
  unfolding written blend blend_plain source_at fade_env_at
  written-wanted none preserve mix zero n off i d = refl
  written-wanted (some xs) preserve mix zero n off i d = refl
  written-wanted none preserve mix (suc f) n off i d =
      let fading : ltb 0 (suc f) ≡ true = ground arith in rw fading refl
  written-wanted (some xs) preserve mix (suc f) n off i d =
      let fading : ltb 0 (suc f) ≡ true = ground arith in rw fading refl
