-- ===== src/Base/Slice.antt =====
-- Python's indexing and slicing, with its negative indices.
use softcut_py.Base.{
  ℕ, suc, ◌-◌, ◌≤◌, ◌<◌, ◌≡◌, Option, none, some, List, min, arith, ltb, if◌then◌else◌, length,
  take, drop, length-take, length-drop,
}
use softcut_py.Base.Int.{ℤ, pos, negsuc}

-- `xs[i]` finds its element at this place; `none` is IndexError.
abbrev pub index_of : ℕ → ℤ → Option ℕ
index_of n (pos i) = if ltb i n then some i else none
index_of n (negsuc i) = if ltb i n then some (n - suc i) else none

-- A bound of a slice: a negative one counts from the end, and both stay within the list.
abbrev pub slice_bound : ℕ → ℤ → ℕ
slice_bound n (pos i) = min i n
slice_bound n (negsuc i) = n - suc i

module _ {ℓ} {A : Type ℓ} where
  -- `xs[i:]`
  abbrev pub slice_from : List A → ℤ → List A
  slice_from xs i = drop (slice_bound (length xs) i) xs

  -- `xs[i:j]`
  abbrev pub slice : List A → ℤ → ℤ → List A
  slice xs i j =
      let a = slice_bound (length xs) i in
      let b = slice_bound (length xs) j in take (b - a) (drop a xs)

  pub length-slice_from :
      (xs : List A) (i : ℤ) → length (slice_from xs i) ≡ length xs - slice_bound (length xs) i
  length-slice_from xs i = length-drop _ xs

  pub length-slice-le : (xs : List A) (i j : ℤ) → length (slice xs i j) ≤ length xs
  length-slice-le xs i j =
      let a = slice_bound (length xs) i in
      let b = slice_bound (length xs) j in
      omega (arith, length-take (b - a) (drop a xs), length-drop a xs)

pub index_of-lt : (n : ℕ) (i : ℤ) {k : ℕ} → index_of n i ≡ some k → k < n
index_of-lt n (pos i) h = ground arith
index_of-lt n (negsuc i) h = ground arith
