-- ===== src/Osc/Reports.antt =====
-- What the phase reporter of the python-osc transport sends.
use softcut_py.Base.{
  ℕ, suc, ◌≡◌, refl, Bool, true, false, Option, List, [], ◌∷◌, ◌++◌, if◌then◌else◌, Bool-cases, inl,
  inr, ap, ◌∙◌, ◌&&◌, and-true,
}
use softcut_py.Base.Exec.{Result, err, os_error}
use softcut_py.Platform.{Platform}
use softcut_py.Osc.Poll.{changed, scan}

-- Every send succeeds.
abbrev pub always : ℕ → Bool
always i = true

module _ (p : Platform) where
  open p use {F, feq}

  -- The reports of a scan, and the values that it remembers.
  abbrev pub reports : (ℕ → Bool) → ℕ → List F → List (Option F) → List (ℕ × F)
  reports sends i xs last = (scan p sends i xs last).2

  abbrev pub remembered : (ℕ → Bool) → ℕ → List F → List (Option F) → List (Option F)
  remembered sends i xs last = (scan p sends i xs last).1

  -- The voices whose phase is another than the one remembered, with the phase.
  unfoldable pub changes : ℕ → List F → List (Option F) → List (ℕ × F)
  changes i [] last = []
  changes i (x ∷ xs) [] = []
  changes i (x ∷ xs) (l ∷ last) =
      let later = changes (suc i) xs last in if changed p x l then (i, x) ∷ later else later

  scan-reports :
      (i : ℕ) (xs : List F) (last : List (Option F)) → reports always i xs last ≡ changes i xs last
  unfolding scan changes
  scan-reports i [] last = refl
  scan-reports i (x ∷ xs) [] = refl
  scan-reports i (x ∷ xs) (l ∷ last) = elim (Bool-cases (changed p x l)) [
    | inl e ↦
        rw (e, reports, scan, changes)
          (ap (λ (r : List (ℕ × F)). (i, x) ∷ r) (scan-reports (suc i) xs last))
    | inr e ↦ rw (e, reports, scan, changes) (scan-reports (suc i) xs last)
  ]

  scan-failed :
      (sends : ℕ → Bool) (i : ℕ) (x : F) (xs : List F) (l : Option F) (last : List (Option F))
      → changed p x l ≡ true
      → sends i ≡ false
      → scan p sends i (x ∷ xs) (l ∷ last) ≡ (err os_error, l ∷ last, [])
  unfolding scan
  scan-failed sends i x xs l last e failed = rw (e, failed, scan) refl

  -- None of the phases is a nan.
  abbrev pub no_nan : List F → Bool
  no_nan [] = true
  no_nan (x ∷ xs) = feq x x && no_nan xs

  -- What the sends of one scan could not deliver, a second scan of the same phases does, none of
  -- them being a nan: together they report each change once and in order.
  pub scan-retry :
      (sends : ℕ → Bool) (i : ℕ) (xs : List F) (last : List (Option F))
      → no_nan xs ≡ true
      → reports sends i xs last ++ reports always i xs (remembered sends i xs last)
        ≡ changes i xs last
  unfolding scan changes
  scan-retry sends i [] last same = refl
  scan-retry sends i (x ∷ xs) [] same = refl
  scan-retry sends i (x ∷ xs) (l ∷ last) same =
      let (own, rest) = and-true {a = feq x x} same in
      elim (Bool-cases (changed p x l)) [
        | inl e ↦ elim (Bool-cases (sends i)) [
          | inl sent ↦
              rw (e, sent, reports, remembered, scan, changes, own)
                (ap (λ (r : List (ℕ × F)). (i, x) ∷ r) (scan-retry sends (suc i) xs last rest))
          | inr failed ↦
              ap
                (λ (r : Result (Unit {0}) × List (Option F) × List (ℕ × F)).
                  r.2 ++ reports always i (x ∷ xs) r.1)
                (scan-failed sends i x xs l last e failed)
              ∙ scan-reports i (x ∷ xs) (l ∷ last)
        ]
        | inr e ↦
            rw (e, reports, remembered, scan, changes, e) (scan-retry sends (suc i) xs last rest)
      ]
