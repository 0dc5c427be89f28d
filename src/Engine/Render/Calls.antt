-- ===== src/Engine/Render/Calls.antt =====
-- What a call of `Engine.render` of src/softcut/__init__.py gives, on every branch.
use softcut_py.Base.{
  ℕ, suc, ◌*◌, ◌≤◌, ◌≡◌, refl, sym, subst, ◌∙◌, ap, Bool, true, false, Bool-cases, inl, inr, Option,
  none, some, List, ◌++◌, length, ltb, arith, if◌then◌else◌, not_lt→ltb, length-append,
  length-replicate,
}
use mathlib.Core.List.{append-nil}
use softcut_py.Base.Int.{pos, pos_part}
use softcut_py.Base.Exec.{Result, ok, err, runtime_error, value_error}
use softcut_py.Platform.{Platform}
use softcut_py.Mixer.{overwrite}
use softcut_py.Engine.{Engine}
use softcut_py.Engine.Render.{
  from_input, silence, core_render, render, render_input, render_on, out_or_zeros,
}
use softcut_py.Engine.Render.Cut.{cut, cut-append, cut_enough, drop-past}
use softcut_py.Engine.Render.Rounds.{play, play-append, play-block_size, play-running}
use softcut_py.Engine.Render.Blocks.{played, length-played, run_source, from_input-next}

module _ (p : Platform) where
  open p use {S, F, s_lit}

  core_render_lem :
      (xs dest : List S) (e : Engine p)
      → 1 ≤ pos_part e.block_size
      → core_render p xs dest e ≡ (
          if ltb (length dest) (length xs * pos_part e.out_channels)
          then some (err value_error, e)
          else some (ok (overwrite p (played p xs e).0 dest), (played p xs e).1))
  unfolding core_render
  core_render_lem xs dest e one =
      rw
        (run_source p (from_input p xs) xs (length xs) e refl one
          (from_input-next p xs (pos_part e.block_size)))
        refl

  if-eq-else : {A : Type 0} (b : Bool) (x y : A) → b ≡ false → (if b then x else y) ≡ y
  if-eq-else true x y h = cc
  if-eq-else false x y h = refl

  if-eq-then : {A : Type 0} (b : Bool) (x y : A) → b ≡ true → (if b then x else y) ≡ x
  if-eq-then true x y h = refl
  if-eq-then false x y h = cc

  render-stopped :
      (input out : Option (List S)) (seconds : Option F) (e : Engine p)
      → e.running ≡ false
      → render p input out seconds e ≡ render_on p (render_input p input seconds e) out e
  unfolding render
  render-stopped input out seconds e stopped = if-eq-else e.running _ _ stopped

  -- Given a float32 input and an array for the output, a stopped engine raises ValueError and stays as
  -- it was if the array is too short for the input's frames, and otherwise plays the input in
  -- blocks and writes the output to the start of the array.
  pub render_into :
      (xs out : List S) (e : Engine p)
      → e.running ≡ false
      → 1 ≤ pos_part e.block_size
      → render p (some xs) (some out) none e ≡ (
          if ltb (length out) (length xs * pos_part e.out_channels)
          then some (err value_error, e)
          else some (ok (overwrite p (played p xs e).0 out), (played p xs e).1))
  unfolding render_input
  render_into xs out e stopped one =
      render-stopped (some xs) (some out) none e stopped ∙ core_render_lem xs out e one

  overwrite-whole : (o row : List S) → length o ≡ length row → overwrite p o row ≡ o
  overwrite-whole o row h = ap (λ r. o ++ r) (drop-past (length o) row (omega arith)) ∙ append-nil o

  -- Without an array for the output, `render` makes one that the output fills.
  pub render-played :
      (xs : List S) (e : Engine p)
      → e.running ≡ false
      → 1 ≤ pos_part e.block_size
      → render p (some xs) none none e ≡ some (ok (played p xs e).0, (played p xs e).1)
  unfolding render_input
  render-played xs e stopped one =
      let n = length xs * pos_part e.out_channels in
      let size = length-replicate n (s_lit (pos 0)) in
      let whole =
        overwrite-whole (played p xs e).0 (silence p n) (length-played p xs e one ∙ sym size) in
      render-stopped (some xs) none none e stopped
      ∙ core_render_lem xs (silence p n) e one
      ∙ if-eq-else (ltb (length (silence p n)) n) (some (err value_error, e))
          (some (ok (overwrite p (played p xs e).0 (silence p n)), (played p xs e).1))
          (not_lt→ltb (length (silence p n)) n (λ h. omega arith))
      ∙ ap (λ o. some (ok o, (played p xs e).1)) whole

  played-append :
      (j : ℕ) (xs ys : List S) (e : Engine p)
      → 1 ≤ pos_part e.block_size
      → length xs ≡ j * pos_part e.block_size
      → played p (xs ++ ys) e ≡ (
        (played p xs e).0 ++ (played p ys (played p xs e).1).0,
        (played p ys (played p xs e).1).1,
      )
  unfolding played
  played-append j xs ys e one whole =
      let b = pos_part e.block_size in
      let n = suc (length (xs ++ ys)) in
      let size = length-append xs ys in
      let first = cut (suc (length xs)) b xs in
      let e1 = (play p first e).1 in
      ap (λ blocks. play p blocks e)
        (cut-append j n (suc (length xs)) b xs ys one whole (omega arith) (omega arith))
      ∙ play-append p first (cut n b ys) e
      ∙ ap (λ blocks. ((play p first e).0 ++ (play p blocks e1).0, (play p blocks e1).1))
          (cut_enough n (suc (length ys)) b ys one (omega arith) (omega arith)
            ∙ ap (λ k. cut (suc (length ys)) (pos_part k) ys) (sym (play-block_size p first e)))

  -- Rendering whole blocks and then the rest is rendering all at once: if the first input is a
  -- whole number of blocks long, the outputs of two successive renders are together the output of
  -- one render of both inputs, and the engine is the same afterwards.
  pub render-append :
      (j : ℕ) (xs ys o1 o2 : List S) (e e1 e2 : Engine p)
      → e.running ≡ false
      → 1 ≤ pos_part e.block_size
      → length xs ≡ j * pos_part e.block_size
      → render p (some xs) none none e ≡ some (ok o1, e1)
      → render p (some ys) none none e1 ≡ some (ok o2, e2)
      → render p (some (xs ++ ys)) none none e ≡ some (ok (o1 ++ o2), e2)
  unfolding played
  render-append j xs ys o1 o2 e e1 e2 stopped one whole first second =
      let b = pos_part e.block_size in
      let blocks = cut (suc (length xs)) b xs in
      let at_first = sym (render-played xs e stopped one) ∙ first in
      let out1 : (played p xs e).0 ≡ o1 = cc in
      let left1 : (played p xs e).1 ≡ e1 = cc in
      let stopped1 : e1.running ≡ false =
        ap (λ (t : Engine p). t.running) (sym left1) ∙ play-running p blocks e ∙ stopped in
      let one1 : 1 ≤ pos_part e1.block_size =
        subst (λ (t : Engine p). 1 ≤ pos_part t.block_size) left1
          (subst (λ k. 1 ≤ pos_part k) (sym (play-block_size p blocks e)) one) in
      let at_second = sym (render-played ys e1 stopped1 one1) ∙ second in
      render-played (xs ++ ys) e stopped one
      ∙ ap (λ (r : List S × Engine p). some (ok r.0, r.1)) (played-append j xs ys e one whole)
      ∙ cc

  core_render_returns :
      (xs dest : List S) (e : Engine p)
      → 1 ≤ pos_part e.block_size
      → (r : Result (List S) × Engine p) × (core_render p xs dest e ≡ some r)
  core_render_returns xs dest e one =
      elim (Bool-cases (ltb (length dest) (length xs * pos_part e.out_channels))) [
        | inl short ↦ ((err value_error, e), core_render_lem xs dest e one ∙ rw short refl)
        | inr long ↦ (
          (ok (overwrite p (played p xs e).0 dest), (played p xs e).1),
          core_render_lem xs dest e one ∙ rw long refl,
        )
      ]

  render_on_returns :
      (input : Result (List S)) (out : Option (List S)) (e : Engine p)
      → 1 ≤ pos_part e.block_size
      → (r : Result (List S) × Engine p) × (render_on p input out e ≡ some r)
  render_on_returns (err x) out e one = ((err x, e), refl)
  render_on_returns (ok xs) out e one =
      core_render_returns xs (out_or_zeros p out (length xs * pos_part e.out_channels)) e one

  -- `render` returns or raises, whatever it is given: its loop over blocks ends, since a block has
  -- at least one frame.
  pub render_returns :
      (input out : Option (List S)) (seconds : Option F) (e : Engine p)
      → 1 ≤ pos_part e.block_size
      → (r : Result (List S) × Engine p) × (render p input out seconds e ≡ some r)
  unfolding render
  render_returns input out seconds e one = elim (Bool-cases e.running) [
    | inl live ↦ ((err runtime_error, e), if-eq-then e.running _ _ live)
    | inr stopped ↦
        let (r, h) = render_on_returns (render_input p input seconds e) out e one in
        (r, render-stopped input out seconds e stopped ∙ h)
  ]
