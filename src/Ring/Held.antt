-- ===== src/Ring/Held.antt =====
-- The functions that a ring holds, slot by slot from the oldest.
use softcut_py.Base.{
  ℕ, ◌+◌, ◌-◌, ◌%◌, ◌≤◌, ◌<◌, ◌≡◌, ◌≢◌, ap, arith, Option, none, some, List, [], ◌∷◌, ◌++◌, length,
  get_or, set, get_or-set_ne, ◌∙◌, sym,
}
use native.Mathlib.Decide.{ℕ_discrete}
use softcut_py.Bits.{bit_and-mask, bit_and-pow}
use softcut_py.Ring.{capacity, next}

-- One step round the ring.
pub next_lem : (i : ℕ) → i < capacity → next i ≡ (i + 1) % capacity
unfolding next
next_lem i h = elim (ℕ_discrete (i + 1) capacity) [
  | yes last ↦ rw last (bit_and-pow 12)
  | no inside ↦ bit_and-mask 12 (i + 1) (omega arith) ∙ omega arith
]

module _ {ℓ} {A : Type ℓ} where
  -- From slot `t` on, going round, the slots hold `xs`.
  abbrev pub Held : List (Option A) → ℕ → List A → Type ℓ
  Held buf t [] = Unit
  Held buf t (x ∷ xs) = (get_or buf t none ≡ some x) × Held buf ((t + 1) % capacity) xs

  -- A write to a slot past the last one that is held.
  pub Held-set :
      (buf : List (Option A)) (t j d : ℕ) (v : Option A) (xs : List A)
      → t < capacity
      → d < capacity
      → length xs ≤ d
      → j ≡ (t + d) % capacity
      → Held buf t xs
      → Held (set buf j v) t xs
  Held-set buf t j d v [] ht hd hn e held = tt
  Held-set buf t j d v (x ∷ xs) ht hd hn e (here, rest) =
      let apart : j ≢ t = omega arith in
      (
        get_or-set_ne buf v none apart ∙ here,
        Held-set buf ((t + 1) % capacity) j (d - 1) v xs (omega arith) (omega arith) (omega arith)
            (omega arith) rest,
      )

  -- One more slot at the end.
  pub Held-append :
      (buf : List (Option A)) (t j : ℕ) (x : A) (xs : List A)
      → t < capacity
      → j ≡ (t + length xs) % capacity
      → Held buf t xs
      → get_or buf j none ≡ some x
      → Held buf t (xs ++ (x ∷ []))
  Held-append buf t j x [] ht e held last =
      let same : j ≡ t = omega arith in (ap (λ k. get_or buf k none) (sym same) ∙ last, tt)
  Held-append buf t j x (y ∷ ys) ht e (here, rest) last =
      (here, Held-append buf ((t + 1) % capacity) j x ys (omega arith) (omega arith) rest last)
