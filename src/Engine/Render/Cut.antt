-- ===== src/Engine/Render/Cut.antt =====
-- A list cut into blocks, as the loops of `render` and of the callback take their input.
use native.Mathlib.Decide.{dec_lt}
use softcut_py.Base.{
  ℕ, zero, suc, ◌+◌, ◌-◌, ◌*◌, ◌≤◌, ◌<◌, ◌≡◌, refl, sym, ◌∙◌, ap, List, [], ◌∷◌, ◌++◌, length, take,
  drop, min, arith, length-drop,
}

module _ {ℓ} {A : Type ℓ} where
  pub drop-past : (n : ℕ) (xs : List A) → length xs ≤ n → drop n xs ≡ []
  drop-past zero [] h = refl
  drop-past zero (x ∷ xs) h = absurd (omega arith)
  drop-past (suc n) [] h = refl
  drop-past (suc n) (x ∷ xs) h = drop-past n xs (omega arith)

  pub drop-nil : (n : ℕ) → drop {A = A} n [] ≡ []
  drop-nil zero = refl
  drop-nil (suc n) = refl

  pub drop-drop : (m n : ℕ) (xs : List A) → drop m (drop n xs) ≡ drop (n + m) xs
  drop-drop m zero xs = ap (λ k. drop k xs) (omega arith)
  drop-drop m (suc n) [] = drop-nil m ∙ sym (drop-nil (suc n + m))
  drop-drop m (suc n) (x ∷ xs) = drop-drop m n xs ∙ same
    where
      same : drop (n + m) xs ≡ drop (suc n + m) (x ∷ xs)
      same = ap (λ k. drop k (x ∷ xs)) {x = suc (n + m)} (omega arith)

  -- A list cut into blocks of `b`, the last one shorter; `n` is at least the list's length.
  unfoldable pub cut : ℕ → ℕ → List A → List (List A)
  cut zero b xs = []
  cut (suc n) b [] = []
  cut (suc n) b (x ∷ xs) = take b (x ∷ xs) ∷ cut n b (drop b (x ∷ xs))

  pub cut_more :
      (n b : ℕ) (xs : List A) → 0 < length xs → cut (suc n) b xs ≡ take b xs ∷ cut n b (drop b xs)
  unfolding cut
  cut_more n b [] h = absurd (omega arith)
  cut_more n b (x ∷ xs) h = refl

  drop_round :
      (b done : ℕ) (xs : List A) → drop b (drop done xs) ≡ drop (done + min b (length xs - done)) xs
  drop_round b done xs = drop-drop b done xs ∙ elim (dec_lt (length xs - done) b) [
    | yes last ↦
        drop-past (done + b) xs (omega arith)
        ∙ sym (drop-past (done + min b (length xs - done)) xs (omega arith))
    | no full ↦ ap (λ k. drop k xs) (omega arith)
  ]

  pub cut_round :
      (n b done : ℕ) (xs : List A)
      → done < length xs
      → cut (suc n) b (drop done xs)
        ≡ take b (drop done xs) ∷ cut n b (drop (done + min b (length xs - done)) xs)
  cut_round n b done xs h =
      cut_more n b (drop done xs) (omega (arith, length-drop done xs))
      ∙ ap (λ rest. take b (drop done xs) ∷ cut n b rest) (drop_round b done xs)

  -- A longer count of blocks changes nothing.
  pub cut_enough :
      (m n b : ℕ) (xs : List A) → 1 ≤ b → length xs ≤ m → length xs ≤ n → cut m b xs ≡ cut n b xs
  unfolding cut
  cut_enough zero zero b xs one h k = refl
  cut_enough zero (suc n) b [] one h k = refl
  cut_enough (suc m) zero b [] one h k = refl
  cut_enough (suc m) (suc n) b [] one h k = refl
  cut_enough zero (suc n) b (x ∷ xs) one h k = absurd (omega arith)
  cut_enough (suc m) zero b (x ∷ xs) one h k = absurd (omega arith)
  cut_enough (suc m) (suc n) b (x ∷ xs) one h k =
      let shorter = length-drop b (x ∷ xs) in
      ap (λ rest. take b (x ∷ xs) ∷ rest)
        (cut_enough m n b (drop b (x ∷ xs)) one (omega arith) (omega arith))

  take-append : (b : ℕ) (xs ys : List A) → b ≤ length xs → take b (xs ++ ys) ≡ take b xs
  take-append zero xs ys h = refl
  take-append (suc b) [] ys h = absurd (omega arith)
  take-append (suc b) (x ∷ xs) ys h = ap (λ r. x ∷ r) (take-append b xs ys (omega arith))

  drop-append : (b : ℕ) (xs ys : List A) → b ≤ length xs → drop b (xs ++ ys) ≡ drop b xs ++ ys
  drop-append zero xs ys h = refl
  drop-append (suc b) [] ys h = absurd (omega arith)
  drop-append (suc b) (x ∷ xs) ys h = drop-append b xs ys (omega arith)

  -- Whole blocks, and then the blocks of the rest.
  pub cut-append :
      (j n m b : ℕ) (xs ys : List A)
      → 1 ≤ b
      → length xs ≡ j * b
      → length xs + length ys ≤ n
      → length xs ≤ m
      → cut n b (xs ++ ys) ≡ cut m b xs ++ cut n b ys
  unfolding cut
  cut-append zero n m b (x ∷ xs) ys one e h k = absurd (omega arith)
  cut-append zero n zero b [] ys one e h k = refl
  cut-append zero n (suc m) b [] ys one e h k = refl
  cut-append (suc j) n m b [] ys one e h k = absurd (blocks_long j b one e)
    where
      blocks_long : (j b : ℕ) → 1 ≤ b → 0 ≡ suc j * b → ⊥
      blocks_long j b one e = grind arith
  cut-append (suc j) zero m b (x ∷ xs) ys one e h k = absurd (omega arith)
  cut-append (suc j) (suc n) zero b (x ∷ xs) ys one e h k = absurd (omega arith)
  cut-append (suc j) (suc n) (suc m) b (x ∷ xs) ys one e h k =
      let rest = drop b (x ∷ xs) in
      let shorter = length-drop b (x ∷ xs) in
      let enough : b ≤ length (x ∷ xs) = first_block j b (length (x ∷ xs)) e in
      let count : length rest ≡ j * b = shorter ∙ less_one j b (length (x ∷ xs)) e in
      rw (take-append b (x ∷ xs) ys enough, drop-append b (x ∷ xs) ys enough)
        (ap (λ r. take b (x ∷ xs) ∷ r)
          (cut-append j n m b rest ys one count (omega arith) (omega arith)
            ∙ ap (λ r. cut m b rest ++ r)
                (cut_enough n (suc n) b ys one (omega arith) (omega arith))))
    where
      first_block : (j b n : ℕ) → n ≡ suc j * b → b ≤ n
      first_block j b n e = grind arith

      less_one : (j b n : ℕ) → n ≡ suc j * b → n - b ≡ j * b
      less_one j b n e = grind arith
