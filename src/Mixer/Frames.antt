-- ===== src/Mixer/Frames.antt =====
-- What mixing one voice in changes, sample by sample.
use softcut_py.Base.{
  ℕ, zero, suc, ◌+◌, ◌*◌, ◌≤◌, ◌<◌, ◌≡◌, ◌≢◌, refl, ◌∙◌, ap, arith, Bool-cases, inl, inr, ltb,
  ltb→lt, lt→ltb, List, [], ◌∷◌, length, get_or,
}
use softcut_py.Platform.{Platform}
use softcut_py.Engine.{update_at}
use softcut_py.Engine.Shape.{length-update_at}
use softcut_py.Mixer.{mix_frame, mix_frames}

module _ {ℓ} {A : Type ℓ} where
  pub get_or-update_at_self :
      (i : ℕ) (f : A → A) (xs : List A) (d : A)
      → i < length xs
      → get_or (update_at i f xs) i d ≡ f (get_or xs i d)
  get_or-update_at_self i f [] d h = elim h [ ]
  get_or-update_at_self zero f (x ∷ xs) d h = refl
  get_or-update_at_self (suc i) f (x ∷ xs) d h = get_or-update_at_self i f xs d (omega arith)

  pub get_or-update_at_ne :
      (i j : ℕ) (f : A → A) (xs : List A) (d : A)
      → i ≢ j
      → get_or (update_at i f xs) j d ≡ get_or xs j d
  get_or-update_at_ne i j f [] d h = refl
  get_or-update_at_ne zero zero f (x ∷ xs) d h = absurd (h refl)
  get_or-update_at_ne zero (suc j) f (x ∷ xs) d h = refl
  get_or-update_at_ne (suc i) zero f (x ∷ xs) d h = refl
  get_or-update_at_ne (suc i) (suc j) f (x ∷ xs) d h =
      get_or-update_at_ne i j f xs d (λ e. h (ap suc e))

-- A sample of a frame lies below every sample of a later frame.
pub frame_apart : (c f g channels : ℕ) → c < channels → f < g → f * channels + c < g * channels
frame_apart c f g channels h k = grind arith

module _ (p : Platform) where
  open p use {S, s_lit, s_add, s_mul, process_mono}

  length-mix_frame :
      (channels : ℕ) (gl gr : S) (f : ℕ) (x : S) (out : List S)
      → length (mix_frame p channels gl gr f x out) ≡ length out
  unfolding mix_frame
  length-mix_frame channels gl gr f x out =
      let left = update_at (f * channels + 0) (λ y. s_add y (s_mul x gl)) out in
      ground (
        arith,
        length-update_at (f * channels + 0) (λ y. s_add y (s_mul x gl)) out,
        length-update_at (f * channels + 1) (λ y. s_add y (s_mul x gr)) left,
      )

  pub length-mix_frames :
      (channels : ℕ) (gl gr : S) (f : ℕ) (o out : List S)
      → length (mix_frames p channels gl gr f o out) ≡ length out
  unfolding mix_frames
  length-mix_frames channels gl gr f [] out = refl
  length-mix_frames channels gl gr f (x ∷ o) out =
      length-mix_frames channels gl gr (suc f) o (mix_frame p channels gl gr f x out)
      ∙ length-mix_frame channels gl gr f x out

  -- What a voice adds to a sample of channel `c`: its dry output by the gain of that side, and
  -- nothing beyond the second channel.
  unfoldable pub added : ℕ → S → S → S → S → S
  added zero gl gr x y = s_add y (s_mul x gl)
  added (suc zero) gl gr x y = s_add y (s_mul x gr)
  added (suc (suc c)) gl gr x y = y

  mix_frame_other :
      (channels : ℕ) (gl gr : S) (g j : ℕ) (x : S) (out : List S) (d : S)
      → g * channels + 0 ≢ j
      → (1 < channels → g * channels + 1 ≢ j)
      → get_or (mix_frame p channels gl gr g x out) j d ≡ get_or out j d
  unfolding mix_frame
  mix_frame_other channels gl gr g j x out d h k =
      let left = update_at (g * channels + 0) (λ y. s_add y (s_mul x gl)) out in
      let kept = get_or-update_at_ne (g * channels + 0) j (λ y. s_add y (s_mul x gl)) out d h in
      elim (Bool-cases (ltb 1 channels)) [
        | inl more ↦ rw more (
            get_or-update_at_ne (g * channels + 1) j (λ y. s_add y (s_mul x gr)) left d
              (k (ltb→lt _ _ more))
            ∙ kept)
        | inr mono ↦ rw mono kept
      ]

  mix_frame_self :
      (channels : ℕ) (gl gr : S) (g c : ℕ) (x : S) (out : List S) (d : S)
      → c < channels
      → g * channels + c < length out
      → get_or (mix_frame p channels gl gr g x out) (g * channels + c) d
        ≡ added c gl gr x (get_or out (g * channels + c) d)
  unfolding mix_frame added
  mix_frame_self channels gl gr g zero x out d hc h =
      let left = update_at (g * channels + 0) (λ y. s_add y (s_mul x gl)) out in
      let here = get_or-update_at_self (g * channels + 0) (λ y. s_add y (s_mul x gl)) out d h in
      elim (Bool-cases (ltb 1 channels)) [
        | inl more ↦ rw more (
            get_or-update_at_ne (g * channels + 1) (g * channels + 0) (λ y. s_add y (s_mul x gr))
              left d (omega arith)
            ∙ here)
        | inr mono ↦ rw mono here
      ]
  mix_frame_self channels gl gr g (suc zero) x out d hc h =
      let left = update_at (g * channels + 0) (λ y. s_add y (s_mul x gl)) out in
      let kept = length-update_at (g * channels + 0) (λ y. s_add y (s_mul x gl)) out in
      rw (lt→ltb 1 channels hc) (
        get_or-update_at_self (g * channels + 1) (λ y. s_add y (s_mul x gr)) left d (omega arith)
        ∙ ap (λ y. s_add y (s_mul x gr))
            (get_or-update_at_ne (g * channels + 0) (g * channels + 1) (λ y. s_add y (s_mul x gl))
              out d (omega arith)))
  mix_frame_self channels gl gr g (suc (suc c)) x out d hc h =
      mix_frame_other channels gl gr g (g * channels + suc (suc c)) x out d (omega arith)
        (λ _. omega arith)

  -- A frame before those that are mixed in.
  mix_frames_before :
      (channels : ℕ) (gl gr : S) (g : ℕ) (o out : List S) (f c : ℕ) (d : S)
      → c < channels
      → f < g
      → get_or (mix_frames p channels gl gr g o out) (f * channels + c) d
        ≡ get_or out (f * channels + c) d
  unfolding mix_frames
  mix_frames_before channels gl gr g [] out f c d hc hf = refl
  mix_frames_before channels gl gr g (x ∷ o) out f c d hc hf =
      let below = frame_apart c f g channels hc hf in
      mix_frames_before channels gl gr (suc g) o (mix_frame p channels gl gr g x out) f c d hc
        (omega arith)
      ∙ mix_frame_other channels gl gr g (f * channels + c) x out d (omega arith) (λ _. omega arith)

  -- Mixing a voice in adds to each sample of each of its frames what that voice contributes.
  pub mix_frames-at :
      (channels : ℕ) (gl gr : S) (g : ℕ) (o out : List S) (f c : ℕ) (d : S)
      → c < channels
      → f < length o
      → (g + length o) * channels ≤ length out
      → get_or (mix_frames p channels gl gr g o out) ((g + f) * channels + c) d
        ≡ added c gl gr (get_or o f d) (get_or out ((g + f) * channels + c) d)
  unfolding mix_frames
  mix_frames-at channels gl gr g [] out f c d hc hf room = absurd (omega arith)
  mix_frames-at channels gl gr g (x ∷ o) out zero c d hc hf room =
      let inside = frame_apart c g (g + length (x ∷ o)) channels hc (omega arith) in
      let at_g : g + 0 ≡ g = omega arith in
      rw at_g (
        mix_frames_before channels gl gr (suc g) o (mix_frame p channels gl gr g x out) g c d hc
          (omega arith)
        ∙ mix_frame_self channels gl gr g c x out d hc (omega arith))
  mix_frames-at channels gl gr g (x ∷ o) out (suc f) c d hc hf room =
      let kept = length-mix_frame channels gl gr g x out in
      let later : suc g + length o ≡ g + length (x ∷ o) = omega arith in
      let at_f : suc g + f ≡ g + suc f = omega arith in
      let past = frame_apart 0 g (g + suc f) channels (omega arith) (omega arith) in
      let past_one : 1 < channels → g * channels + 1 < (g + suc f) * channels =
        λ more. frame_apart 1 g (g + suc f) channels more (omega arith) in
      rw at_f at (
        mix_frames-at channels gl gr (suc g) o (mix_frame p channels gl gr g x out) f c d hc
          (omega arith) (rw (later, kept) room))
      ∙ ap (added c gl gr (get_or o f d)) (
          mix_frame_other channels gl gr g ((g + suc f) * channels + c) x out d (omega arith)
            (λ more. omega (arith, past_one more)))
