-- ===== src/Engine/Feedback.antt =====
-- The feedback matrix of the engine.
use softcut_py.Base.{
  ℕ, zero, suc, ◌+◌, ◌*◌, ◌≤◌, ◌<◌, ◌≡◌, refl, ◌∙◌, ap, ap₂, nat_eq, ◌==◌, sym, subst, length,
  get_or, set, get_or-set_self, get_or-set_ne, arith, Bool-cases, true-or_false, inl, inr, ◌&&◌,
  if◌then◌else◌,
}
use native.Mathlib.Nat.{mul-le-mul_right}
use softcut_py.Base.Int.{pos}
use softcut_py.Base.Exec.{ok, ◌>>=◌}
use softcut_py.Platform.{Platform, as_int32}
use softcut_py.Engine.{Engine}
use softcut_py.Engine.Methods.{fb_place, set_feedback, get_feedback}

-- Places of an n by n matrix are below n * n, and are different for different rows or columns.
place-lt : (n src dst : ℕ) → src < n → dst < n → src * n + dst < n * n
place-lt n src dst hs hd = omega (arith, mul-le-mul_right {m = suc src} {n = n} n hs)

-- A quotient and a remainder are told by the number.
place-injective : (n a b c d : ℕ) → b < n → d < n → a * n + b ≡ c * n + d → (a ≡ c) × (b ≡ d)
place-injective n zero b zero d hb hd e = (refl, omega arith)
place-injective n zero b (suc c) d hb hd e = absurd (omega arith)
place-injective n (suc a) b zero d hb hd e = absurd (omega arith)
place-injective n (suc a) b (suc c) d hb hd e =
    let (rows, cols) = place-injective n a b c d hb hd (omega arith) in (ap suc rows, cols)

module _ (p : Platform) where
  open p use {F, S, narrow, widen, s_lit}

  fb_place-ok :
      (e : Engine p) (src dst : ℕ)
      → length e.voices ≤ 2147483647
      → src < length e.voices
      → dst < length e.voices
      → fb_place p (pos src) (pos dst) e ≡ ok (src * length e.voices + dst)
  unfolding fb_place as_int32
  fb_place-ok e src dst small hs hd = ground arith

  set_feedback-eq :
      (e : Engine p) (src dst : ℕ) (amount : F)
      → length e.voices ≤ 2147483647
      → src < length e.voices
      → dst < length e.voices
      → set_feedback p (pos src) (pos dst) amount e
        ≡ (ok tt, record e { fb = set e.fb (src * length e.voices + dst) (narrow amount) })
  unfolding set_feedback ◌>>=◌
  set_feedback-eq e src dst amount small hs hd = rw (fb_place-ok e src dst small hs hd) refl

  get_feedback-eq :
      (e : Engine p) (src dst : ℕ)
      → length e.voices ≤ 2147483647
      → src < length e.voices
      → dst < length e.voices
      → get_feedback p (pos src) (pos dst) e
        ≡ (ok (widen (get_or e.fb (src * length e.voices + dst) (s_lit (pos 0)))), e)
  unfolding get_feedback ◌>>=◌
  get_feedback-eq e src dst small hs hd = rw (fb_place-ok e src dst small hs hd) refl

  -- The gain that `feedback(src, dst)` reads back after `feedback(src, dst, amount)` returned is the
  -- amount in single precision, and the gains of all other pairs are what they were, where the matrix
  -- has a gain for each pair of voices.
  pub get_feedback-set_feedback :
      (src dst a b : ℕ) (amount : F) (e : Engine p)
      → length e.fb ≡ length e.voices * length e.voices
      → length e.voices ≤ 2147483647
      → src < length e.voices
      → dst < length e.voices
      → a < length e.voices
      → b < length e.voices
      → ((set_feedback p (pos src) (pos dst) amount e).0 ≡ ok tt)
        × ((get_feedback p (pos a) (pos b) (set_feedback p (pos src) (pos dst) amount e).1).0 ≡ (
            if (src == a) && (dst == b)
            then ok (widen (narrow amount))
            else (get_feedback p (pos a) (pos b) e).0))
  get_feedback-set_feedback src dst a b amount e size small hs hd ha hb =
      let n = length e.voices in
      let k = src * n + dst in
      let e' = record e { fb = set e.fb k (narrow amount) } in
      let lt : k < length e.fb = subst (λ (m : ℕ). k < m) (sym size) (place-lt n src dst hs hd) in
      rw
        (
          set_feedback-eq e src dst amount small hs hd,
          get_feedback-eq e' a b small ha hb,
          get_feedback-eq e a b small ha hb,
        )
        (
          refl,
          elim (Bool-cases (src == a)) [
            | inl rows ↦ elim (Bool-cases (dst == b)) [
              | inl cols ↦
                  rw (rows, cols)
                    (ap (λ (x : S). ok (widen x))
                      (ap (λ (m : ℕ). get_or e'.fb m (s_lit (pos 0)))
                          (sym (
                            ap₂ (λ (i j : ℕ). i * n + j) ((nat_eq.same_iff src a).0 rows)
                              ((nat_eq.same_iff dst b).0 cols)))
                        ∙ get_or-set_self e.fb k (narrow amount) (s_lit (pos 0)) lt))
              | inr cols ↦
                  rw (rows, cols)
                    (ap (λ (x : S). ok (widen x))
                      (get_or-set_ne e.fb (narrow amount) (s_lit (pos 0)) (λ same.
                        true-or_false
                          ((nat_eq.same_iff dst b).1 (place-injective n src dst a b hd hb same).1)
                          cols)))
            ]
            | inr rows ↦ rw rows (
                ap (λ (x : S). ok (widen x))
                  (get_or-set_ne e.fb (narrow amount) (s_lit (pos 0)) (λ same.
                    true-or_false
                      ((nat_eq.same_iff src a).1 (place-injective n src dst a b hd hb same).0)
                      rows)))
          ],
        )
