-- ===== src/Buffers/Region.antt =====
-- What a blended write changes, sample by sample.
use native.Mathlib.Decide.{dec_lt, dec_le}
use softcut_py.Base.{
  ap, sym, subst, ℕ, zero, suc, ◌+◌, ◌-◌, ◌≤◌, ◌<◌, ◌≡◌, refl, ◌∙◌, ◌⊎◌, inl, inr, Option, List,
  arith, if◌then◌else◌, length, get_or, set, length-set, get_or-set_self, get_or-set_ne, ltb, leb,
  ◌&&◌, none, some, true, false, Bool-cases, ◌/◌,
}
use softcut_py.Base.Int.{ℤ, ◌-ℤ◌, ◌+ℤ◌, pos, pos_part, max_ℤ, min_ℤ}
use softcut_py.Base.Exec.{ok, and_then-eq-ok, ok-injective}
use softcut_py.Platform.{Platform, as_int64}
use softcut_py.Buffers.{
  buffer_apply, apply_count, apply_loop, apply_to_buffer, written, written_frames, fade_frames,
  trimmed, source_at,
}
use softcut_py.Buffers.Blend.{wanted, written-wanted}

module _ (p : Platform) where
  open p use {S, s_lit}

  module _ (src : Option (List S)) (preserve mix : S) (f n start off : ℕ) where
    length-apply_loop :
        (left i : ℕ) (buf : List S)
        → length (apply_loop p src preserve mix f n start off left i buf) ≡ length buf
    unfolding apply_loop
    length-apply_loop zero i buf = refl
    length-apply_loop (suc left) i buf =
        let v = written p src preserve mix f n off i (get_or buf (start + i) (s_lit (pos 0))) in
        length-apply_loop left (suc i) (set buf (start + i) v) ∙ length-set buf (start + i) v

    -- A frame that no round from `i` on reaches keeps its sample.
    apply_loop_outside :
        (left i j : ℕ) (buf : List S)
        → (j < start + i) ⊎ (start + i + left ≤ j)
        → get_or (apply_loop p src preserve mix f n start off left i buf) j (s_lit (pos 0))
          ≡ get_or buf j (s_lit (pos 0))
    unfolding apply_loop
    apply_loop_outside zero i j buf h = refl
    apply_loop_outside (suc left) i j buf h =
        let v = written p src preserve mix f n off i (get_or buf (start + i) (s_lit (pos 0))) in
        apply_loop_outside left (suc i) j (set buf (start + i) v) (ground arith)
        ∙ get_or-set_ne buf v (s_lit (pos 0)) (omega arith)

    -- The frame of round `j` gets the blend of its old sample with that round's source.
    apply_loop_inside :
        (left i j : ℕ) (buf : List S)
        → i ≤ j
        → j < i + left
        → start + i + left ≤ length buf
        → get_or
            (apply_loop p src preserve mix f n start off left i buf)
            (start + j)
            (s_lit (pos 0))
          ≡ written p src preserve mix f n off j (get_or buf (start + j) (s_lit (pos 0)))
    unfolding apply_loop
    apply_loop_inside zero i j buf lo hi fit = absurd (omega arith)
    apply_loop_inside (suc left) i j buf lo hi fit =
        let v = written p src preserve mix f n off i (get_or buf (start + i) (s_lit (pos 0))) in
        elim (dec_lt i j) [
          | yes later ↦
              apply_loop_inside left (suc i) j (set buf (start + i) v) later (omega arith)
                (omega (arith, length-set buf (start + i) v))
              ∙ ap (written p src preserve mix f n off j)
                  (get_or-set_ne buf v (s_lit (pos 0)) (omega arith))
          | no now ↦
              let same : i ≡ j = omega arith in
              apply_loop_outside left (suc i) (start + j) (set buf (start + i) v)
                (inl (omega arith))
              ∙ subst
                  (λ k.
                    get_or (set buf (start + i) v) (start + k) (s_lit (pos 0))
                    ≡ written p src preserve mix f n off k (get_or buf (start + k) (s_lit (pos 0))))
                  same (get_or-set_self buf (start + i) v (s_lit (pos 0)) (omega arith))
        ]

  module _ (buf : List S) (start : ℤ) (src : Option (List S)) (nsrc : ℤ) (preserve mix : S)
      (fade : ℤ) where
    abbrev frames : ℕ
    frames = written_frames (length buf) start nsrc

    -- A write never changes the length of the buffer.
    pub length-apply_to_buffer :
        length (apply_to_buffer p buf start src nsrc preserve mix fade) ≡ length buf
    unfolding apply_to_buffer
    length-apply_to_buffer =
        length-apply_loop src preserve mix (fade_frames fade frames) frames (pos_part start)
          (trimmed start) frames 0 buf

    -- The source frames that are left, and the room that the buffer has.
    frames-fit : (frames ≡ 0) ⊎ (pos_part start + frames ≤ length buf)
    unfolding written_frames ◌-ℤ◌ trimmed
    frames-fit = ground arith

    apply_to_buffer-written :
        (j : ℕ)
        → get_or (apply_to_buffer p buf start src nsrc preserve mix fade) j (s_lit (pos 0)) ≡ (
            if leb (pos_part start) j && ltb j (pos_part start + frames)
            then written p src preserve mix
                (fade_frames fade frames)
                frames
                (trimmed start)
                (j - pos_part start)
                (get_or buf j (s_lit (pos 0)))
            else get_or buf j (s_lit (pos 0)))
    unfolding apply_to_buffer
    apply_to_buffer-written j =
        let first = pos_part start in
        let f = fade_frames fade frames in
        elim (dec_le first j) [
          | no before ↦
              apply_loop_outside src preserve mix f frames first (trimmed start) frames 0 j buf
                (inl (omega arith))
              ∙ ground arith
          | yes from ↦ elim (dec_lt j (first + frames)) [
            | no past ↦
                apply_loop_outside src preserve mix f frames first (trimmed start) frames 0 j buf
                  (inr (omega arith))
                ∙ ground arith
            | yes within ↦
                let back : first + (j - first) ≡ j = omega arith in
                let inside =
                  apply_loop_inside src preserve mix f frames first (trimmed start) frames 0
                    (j - first) buf (omega arith) (omega arith) (ground (arith, frames-fit)) in
                (rw back at inside) ∙ ground arith
          ]
        ]

    -- The first frame of the buffer that the write covers, the one past the last, and the frames of a fade at
    -- each end.
    abbrev from_frame : ℕ
    from_frame = pos_part (max_ℤ start (pos 0))

    abbrev past_frame : ℕ
    past_frame = pos_part (min_ℤ (start +ℤ nsrc) (pos (length buf)))

    abbrev ramp : ℕ
    ramp = pos_part (min_ℤ fade (pos ((past_frame - from_frame) / 2)))

    -- The source frame for frame `j` of the buffer.
    abbrev source_frame : Option (List S) → ℕ → Option S
    source_frame none j = none
    source_frame (some xs) j = some (get_or xs (pos_part (pos j -ℤ start)) (s_lit (pos 0)))

    room : frames ≡ past_frame - from_frame
    unfolding written_frames trimmed ◌-ℤ◌ ◌+ℤ◌
    room = ground arith

    from-first : from_frame ≡ pos_part start
    from-first = ground arith

    source_frame-at :
        (j : ℕ)
        → pos_part start ≤ j
        → source_at p src (trimmed start + (j - pos_part start)) ≡ source_frame src j
    unfolding source_at trimmed ◌-ℤ◌ ◌+ℤ◌
    source_frame-at j from = by_source src
      where
        place : trimmed start + (j - pos_part start) ≡ pos_part (pos j -ℤ start)
        place = ground arith

        by_source :
            (o : Option (List S))
            → source_at p o (trimmed start + (j - pos_part start)) ≡ source_frame o j
        by_source none = refl
        by_source (some xs) = ap (λ k. some (get_or xs k (s_lit (pos 0)))) place

    -- After a write, each frame of the buffer from `start` on, as far as the source and the buffer go, holds
    -- what is wanted there of its own old sample and the source frame that falls on it, with a fade of at
    -- most half of these frames at each end; every other frame is as before.
    pub apply_to_buffer-at :
        (j : ℕ)
        → get_or (apply_to_buffer p buf start src nsrc preserve mix fade) j (s_lit (pos 0)) ≡ (
            if leb from_frame j && ltb j past_frame
            then wanted p preserve mix ramp
                (past_frame - from_frame)
                (j - from_frame)
                (source_frame src j)
                (get_or buf j (s_lit (pos 0)))
            else get_or buf j (s_lit (pos 0)))
    unfolding fade_frames
    apply_to_buffer-at j =
        let d = get_or buf j (s_lit (pos 0)) in
        let known = apply_to_buffer-written j in
        elim (Bool-cases (leb from_frame j && ltb j past_frame)) [
          | inl inside ↦
              let from : pos_part start ≤ j = ground (arith, from-first) in
              let reached : leb (pos_part start) j && ltb j (pos_part start + frames) ≡ true =
                ground (arith, from-first, room) in
              rw inside (
                (rw reached at known)
                ∙ written-wanted p src preserve mix (fade_frames fade frames) frames (trimmed start)
                    (j - pos_part start) d
                ∙ rw (source_frame-at j from, room, from-first) refl)
          | inr outside ↦
              let missed : leb (pos_part start) j && ltb j (pos_part start + frames) ≡ false =
                ground (arith, from-first, room) in
              rw outside (rw missed at known)
        ]

  -- `_buffer_apply` keeps the length of its destination.
  pub length-buffer_apply :
      (dst : List S) (start : ℤ) (src : Option (List S)) (preserve mix : S) (fade count : ℤ)
      {out : List S}
      → buffer_apply p dst start src preserve mix fade count ≡ ok out
      → length out ≡ length dst
  unfolding buffer_apply
  length-buffer_apply dst start src preserve mix fade count e =
      let (s, _, e1) = and_then-eq-ok (as_int64 start) _ e in
      let (f, _, e2) = and_then-eq-ok (as_int64 fade) _ e1 in
      let (c, _, e3) = and_then-eq-ok (as_int64 count) _ e2 in
      ap length (sym (ok-injective _ _ e3))
      ∙ length-apply_to_buffer dst s src (apply_count p src c) preserve mix f
