-- ===== src/Engine/Heads.antt =====
-- The two heads of a voice as src/softcut/__init__.py shows them.
use softcut_py.Base.{ℕ, Bool, false, Option, none, some, ◌≡◌, ◌&&◌, get_elem?, ◌==◌, arith}
use softcut_py.Base.Int.{ℤ, pos, int_eq}
use softcut_py.Platform.{Platform}
use softcut_py.Voice.{Voice}
use softcut_py.Engine.{Engine}

module _ (p : Platform) where
  open p use {
    F, lit, fmul, fdiv, pi, sin, widen, saved_head_position, saved_head_fade, saved_active_head,
  }

  pub record HeadState : Type 0 where
    pub position : F
    pub fade : F
    pub gain : F
    pub active : Bool

  -- Head `i` of what `_heads` gives.
  unfoldable pub head : ℕ → Voice p → HeadState
  head i v =
      let fade = widen (saved_head_fade i v.dsp) in
      record {
        position = widen (saved_head_position i v.dsp);
        fade = fade;
        gain = sin (fdiv (fmul fade pi) (lit (pos 2)));
        active = saved_active_head v.dsp == pos i;
      }

  -- `_voice_heads`
  unfoldable pub heads : ℕ → Engine p → Option (HeadState × HeadState)
  unfolding head
  heads i e = elim (get_elem? e.voices i) [ none ↦ none | some v ↦ some (head 0 v, head 1 v) ]

  -- At most one head is active.
  heads-active : (v : Voice p) → (head 0 v).active && (head 1 v).active ≡ false
  unfolding head
  heads-active v = by_active (saved_active_head v.dsp)
    where
      by_active : (a : ℤ) → (a == pos 0) && (a == pos 1) ≡ false
      by_active a = ground arith
