-- ===== src/Engine/Assign.antt =====
-- When a voice takes an array.
use softcut_py.Base.{
  ℕ, ◌≡◌, refl, Bool, true, false, some, List, length, get_elem?, Bool-cases, true-or_false, inl,
  inr, nat_eq, ◌==◌, ◌↔◌, ◌⊎◌,
}
use softcut_py.Base.Exec.{Result, ok, err}
use softcut_py.Bits.{is_power_of_two, is_power_of_two_iff}
use softcut_py.Sizes.{IsPowerOfTwo}
use softcut_py.Platform.{Platform}
use softcut_py.Engine.{Engine, set_voice_buffer, assign_array, frames_of}

-- The call raised.
abbrev pub is_err {ℓ} : {A : Type ℓ} → Result A → Bool
is_err (ok a) = false
is_err (err e) = true

module _ (p : Platform) where
  open p use {S}

  -- With the engine stopped, a voice takes an array exactly if its length is a power of two.
  pub set_voice_buffer_iff :
      (i a : ℕ) (e : Engine p) (samples : List S)
      → get_elem? e.arrays a ≡ some samples
      → e.running ≡ false
      → ((set_voice_buffer p i a e).0 ≡ ok tt) ↔ IsPowerOfTwo (length samples)
  unfolding set_voice_buffer assign_array
  set_voice_buffer_iff i a e samples found idle =
      elim (Bool-cases (is_power_of_two (length samples))) [
        | inl pow ↦
            rw (found, set_voice_buffer, pow, idle)
              ((λ h. (is_power_of_two_iff (length samples)).0 pow, λ h. refl))
        | inr odd ↦
            rw (found, set_voice_buffer, odd)
              ((
                λ h. cc,
                λ h. absurd (true-or_false ((is_power_of_two_iff (length samples)).1 h) odd),
              ))
      ]

  -- While the engine runs, a voice only takes an array whose length is a power of two and that of the
  -- array it has; otherwise the call raises and nothing changes.
  pub set_voice_buffer-running :
      (i a : ℕ) (e : Engine p) (samples : List S)
      → get_elem? e.arrays a ≡ some samples
      → e.running ≡ true
      → (IsPowerOfTwo (length samples) × (length samples ≡ frames_of p i e))
        ⊎ ((is_err (set_voice_buffer p i a e).0 ≡ true) × ((set_voice_buffer p i a e).1 ≡ e))
  unfolding set_voice_buffer assign_array
  set_voice_buffer-running i a e samples found run =
      elim (Bool-cases (is_power_of_two (length samples))) [
        | inl pow ↦ elim (Bool-cases (length samples == frames_of p i e)) [
          | inl same ↦
              inl ((is_power_of_two_iff (length samples)).0 pow, (nat_eq.same_iff _ _).0 same)
          | inr other ↦ inr (rw (found, set_voice_buffer, pow, run, other) ((refl, refl)))
        ]
        | inr odd ↦ inr (rw (found, set_voice_buffer, odd) ((refl, refl)))
      ]
