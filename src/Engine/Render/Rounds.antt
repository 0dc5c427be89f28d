-- ===== src/Engine/Render/Rounds.antt =====
-- The loops over blocks end, and play the blocks of their input one after another.
use softcut_py.Base.{
  ℕ, zero, suc, ◌+◌, ◌-◌, ◌≤◌, ◌<◌, ◌≡◌, refl, sym, ◌∙◌, ap, Bool-cases, inl, inr, some, List, [],
  ◌∷◌, ◌++◌, length, take, drop, min, ltb, ltb→lt, arith, length-take, length-drop,
}
use mathlib.Core.List.{append_assoc}
use softcut_py.Base.Int.{pos_part}
use softcut_py.Platform.{Platform}
use softcut_py.Engine.{Engine}
use softcut_py.Engine.Render.Cut.{cut, cut_round, drop-past}
use softcut_py.Engine.Render.{process_core, run_blocks, put_before}

module _ (p : Platform) where
  open p use {S}

  -- Blocks played one after another: the output and the engine after them.
  unfoldable pub play : List (List S) → Engine p → List S × Engine p
  play [] e = ([], e)
  play (block ∷ blocks) e =
      let (out, e1) = process_core p block (length block) e in
      let (rest, e2) = play blocks e1 in (out ++ rest, e2)

  pub process_core-block_size :
      (xs : List S) (frames : ℕ) (e : Engine p)
      → (process_core p xs frames e).1.block_size ≡ e.block_size
  unfolding process_core
  process_core-block_size xs frames e = refl

  -- Whatever a loop over the blocks of `input` takes for a round's input, if that is the next block
  -- of `input`, it ends, and plays the rest of `input` cut into blocks.
  pub run_blocks-play :
      (fuel : ℕ) (source : ℕ → ℕ → List S) (input : List S) (b done : ℕ) (e : Engine p)
      → ((d : ℕ) → d < length input → source d (min b (length input - d)) ≡ take b (drop d input))
      → 1 ≤ b
      → pos_part e.block_size ≡ b
      → length input - done < fuel
      → run_blocks p fuel source (length input) done e
        ≡ some (play (cut fuel b (drop done input)) e)
  unfolding run_blocks play cut
  run_blocks-play zero source input b done e next one size h = absurd (omega arith)
  run_blocks-play (suc fuel) source input b done e next one size h =
      elim (Bool-cases (ltb done (length input))) [
        | inl more ↦
            let left : done < length input = ltb→lt _ _ more in
            let n = length input in
            let block = take b (drop done input) in
            let e1 = (process_core p block (length block) e).1 in
            let count : length block ≡ min b (n - done) =
              omega (arith, length-take b (drop done input), length-drop done input) in
            let later =
              run_blocks-play fuel source input b (done + min b (n - done)) e1 next one
                (ap pos_part (process_core-block_size block (length block) e) ∙ size)
                (omega arith) in
            rw (more, size, next done left, cut_round fuel b done input left, ← count)
              (ap (put_before p (process_core p block (length block) e).0) (rw (← count) at later))
        | inr done_all ↦ let past = drop-past done input (ground arith) in rw (done_all, past) refl
      ]

  pub play-append :
      (blocks more : List (List S)) (e : Engine p)
      → play (blocks ++ more) e
        ≡ ((play blocks e).0 ++ (play more (play blocks e).1).0, (play more (play blocks e).1).1)
  unfolding play
  play-append [] more e = refl
  play-append (block ∷ blocks) more e =
      let out = (process_core p block (length block) e).0 in
      let e1 = (process_core p block (length block) e).1 in
      ap (λ (r : List S × Engine p). (out ++ r.0, r.1)) (play-append blocks more e1)
      ∙ ap (λ (o : List S). (o, (play more (play blocks e1).1).1))
          (sym (append_assoc out (play blocks e1).0 (play more (play blocks e1).1).0))

  pub play-block_size :
      (blocks : List (List S)) (e : Engine p) → (play blocks e).1.block_size ≡ e.block_size
  unfolding play
  play-block_size [] e = refl
  play-block_size (block ∷ blocks) e =
      play-block_size blocks (process_core p block (length block) e).1
      ∙ process_core-block_size block (length block) e

  pub play-running : (blocks : List (List S)) (e : Engine p) → (play blocks e).1.running ≡ e.running
  unfolding play process_core
  play-running [] e = refl
  play-running (block ∷ blocks) e = play-running blocks (process_core p block (length block) e).1
