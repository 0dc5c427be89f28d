-- ===== src/Osc/NativePoll.antt =====
-- The phase reporter of the native backend, `OscPhasePoll` of src/softcut/_core.cpp. Its thread and the
-- period between two scans are left out, and so is what becomes of a datagram: `sendto` is called,
-- and its result is not looked at.
use softcut_py.Base.{
  ℕ, suc, ◌≡◌, refl, ◌∙◌, ap, Bool, true, false, Option, none, some, List, [], ◌∷◌, ◌++◌, map,
  if◌then◌else◌, length, replicate, Bool-cases, inl, inr, and-true,
}
use mathlib.Core.List.{append-nil}
use softcut_py.Platform.{Platform}
use softcut_py.Voice.{Voice}
use softcut_py.Osc.Poll.{changed, phases}
use softcut_py.Osc.Reports.{changes, no_nan}

module _ (p : Platform) where
  open p use {F, S, narrow}

  pub record NativePoll : Type 0 where
    -- `last_`, by voice; a NaN, which no phase equals, is `none`
    pub last : List (Option F)
    pub running : Bool
    -- the messages handed to `sendto`: voice and phase
    pub sent : List (ℕ × S)

  unfoldable pub new_native_poll : ℕ → NativePoll
  new_native_poll n = record { last = replicate n none; running = false; sent = [] }

  -- `scan_locked()` from voice `i` on: what is remembered, and what is sent.
  unfoldable pub native_scan : ℕ → List F → List (Option F) → List (Option F) × List (ℕ × S)
  native_scan i [] last = (last, [])
  native_scan i (x ∷ xs) [] = ([], [])
  native_scan i (x ∷ xs) (l ∷ last) =
      let (last', out) = native_scan (suc i) xs last in
      if changed p x l then (some x ∷ last', (i, narrow x) ∷ out) else (l ∷ last', out)

  -- `poll_once()`
  unfoldable pub native_poll_once : List (Voice p) → NativePoll → NativePoll
  unfolding native_scan
  native_poll_once voices q =
      let (last, out) = native_scan 0 (phases p voices) q.last in
      record q { last = last; sent = q.sent ++ out }

  unfoldable pub native_reset : NativePoll → NativePoll
  native_reset q = record q { last = replicate (length q.last) none }

  -- What is remembered stays.
  unfoldable pub native_start : NativePoll → NativePoll
  native_start q = if q.running then q else record q { running = true }

  unfoldable pub native_stop : NativePoll → NativePoll
  native_stop q = record q { running = false }

  abbrev pub as_sent : ℕ × F → ℕ × S
  as_sent (i, x) = (i, narrow x)

  -- A scan sends the phases that changed, as the Python reporter does where its sends succeed, in
  -- single precision.
  native_scan-changes :
      (i : ℕ) (xs : List F) (last : List (Option F))
      → (native_scan i xs last).1 ≡ map as_sent (changes p i xs last)
  unfolding native_scan changes
  native_scan-changes i [] last = refl
  native_scan-changes i (x ∷ xs) [] = refl
  native_scan-changes i (x ∷ xs) (l ∷ last) = elim (Bool-cases (changed p x l)) [
    | inl e ↦
        rw (e, native_scan, changes)
          (ap (λ (r : List (ℕ × S)). (i, narrow x) ∷ r) (native_scan-changes (suc i) xs last))
    | inr e ↦ rw (e, native_scan, changes) (native_scan-changes (suc i) xs last)
  ]

  native_scan-again :
      (i : ℕ) (xs : List F) (last : List (Option F))
      → no_nan p xs ≡ true
      → changes p i xs (native_scan i xs last).0 ≡ []
  unfolding native_scan changes
  native_scan-again i [] last same = refl
  native_scan-again i (x ∷ xs) [] same = refl
  native_scan-again i (x ∷ xs) (l ∷ last) same =
      let (own, rest) = and-true {a = p.feq x x} same in
      elim (Bool-cases (changed p x l)) [
        | inl e ↦ rw (e, native_scan, changes, own) (native_scan-again (suc i) xs last rest)
        | inr e ↦ rw (e, native_scan, changes, e) (native_scan-again (suc i) xs last rest)
      ]

  -- Two scans of the same voices, none of whose phases is a nan, send each changed phase once, in single
  -- precision and in the order of the voices: the second sends nothing.
  pub native_poll_once-twice :
      (voices : List (Voice p)) (q : NativePoll)
      → no_nan p (phases p voices) ≡ true
      → (native_poll_once voices (native_poll_once voices q)).sent
        ≡ q.sent ++ map as_sent (changes p 0 (phases p voices) q.last)
  unfolding native_poll_once
  native_poll_once-twice voices q same =
      let xs = phases p voices in
      let last = (native_scan 0 xs q.last).0 in
      let again =
        native_scan-changes 0 xs last ∙ ap (map as_sent) (native_scan-again 0 xs q.last same) in
      rw (again, append-nil, native_scan-changes 0 xs q.last) refl
