-- ===== src/Engine/Pending/Apply.antt =====
-- `dsp_apply`, `flag_apply` and the drain of src/softcut/_core.cpp, with the counts of the flag changes that wait.
use softcut_py.Base.{
  ℕ, ◌+◌, ◌-◌, ◌<◌, ◌≡◌, refl, arith, Bool, true, false, [], ◌∷◌, ◌++◌, length, ltb, eqb, ◌&&◌,
  if◌then◌else◌, Bool-cases, ◌⊎◌, inl, inr,
}
use softcut_py.Platform.{Platform, Command}
use softcut_py.Voice.{Voice, perform, is_flag_change}
use softcut_py.Engine.{Engine, on_voice, queue_room, dsp_apply, flag_apply, drain, drain_commands}
use softcut_py.Engine.Shape.{length-update_at}
use softcut_py.Engine.Pending.{
  one_if, waiting, pending_of, IsCounted, waiting-one, pending_of-update_at, pending_of-drain,
  length-drain,
}

module _ (p : Platform) where
  open p use {S}

  dsp_apply-queued :
      (i : ℕ) (c : Command S) (e : Engine p)
      → e.running ≡ true
      → ltb (length e.queue) queue_room ≡ true
      → dsp_apply p i c e ≡ (true, record e { queue = e.queue ++ ((i, c) ∷ []) })
  unfolding dsp_apply
  dsp_apply-queued i c e live room = rw (live, room) refl

  dsp_apply-refused :
      (i : ℕ) (c : Command S) (e : Engine p)
      → e.running ≡ true
      → ltb (length e.queue) queue_room ≡ false
      → dsp_apply p i c e ≡ (false, on_voice p i (λ v. record v { dropped = v.dropped + 1 }) e)
  unfolding dsp_apply
  dsp_apply-refused i c e live full = rw (live, full) refl

  dsp_apply-at_once :
      (i : ℕ) (c : Command S) (e : Engine p)
      → e.running ≡ false
      → dsp_apply p i c e ≡ (true, on_voice p i (perform p c) e)
  unfolding dsp_apply
  dsp_apply-at_once i c e stopped = rw stopped refl

  -- The change `c` of voice `i` is counted, and does not wait yet.
  pub record IsAhead (i : ℕ) (c : Command S) (e : Engine p) : Type 0 where
    pub ahead :
        (j : ℕ)
        → j < length e.voices
        → pending_of p e.voices j
          ≡ waiting p j e.queue + waiting p j e.osc_queue + one_if p (eqb i j && is_flag_change p c)

  -- A change that is taken is then counted right, and one that is dropped is still counted too much.
  abbrev pub AfterApply : ℕ → Command S → Bool × Engine p → Type 0
  AfterApply i c r = ((r.0 ≡ true) × IsCounted p r.1) ⊎ ((r.0 ≡ false) × IsAhead i c r.1)

  dsp_apply-AfterApply :
      (i : ℕ) (c : Command S) (e : Engine p) → IsAhead i c e → AfterApply i c (dsp_apply p i c e)
  unfolding perform
  dsp_apply-AfterApply i c e before = elim (Bool-cases e.running) [
    | inl live ↦ elim (Bool-cases (ltb (length e.queue) queue_room)) [
      | inl room ↦ rw (dsp_apply-queued i c e live room) (
          inl (
            refl,
            record {
              counted = λ j inside.
                  let was = before.ahead j inside in
                  let more = waiting-one p i j c e.queue in omega (arith, was, more);
            },
          ))
      | inr full ↦ rw (dsp_apply-refused i c e live full) (
          inr (
            refl,
            record {
              ahead = λ j inside.
                  let size =
                    length-update_at i (λ (v : Voice p). record v { dropped = v.dropped + 1 })
                      e.voices in
                  let same =
                    pending_of-update_at p i j (λ v. record v { dropped = v.dropped + 1 }) (λ n. n)
                      e.voices (λ v. refl) (omega arith) in
                  let was = before.ahead j (omega arith) in ground (arith, same, was);
            },
          ))
    ]
    | inr stopped ↦ rw (dsp_apply-at_once i c e stopped) (
        inl (
          refl,
          record {
            counted = λ j inside.
                let size = length-update_at i (perform p c) e.voices in
                let same =
                  pending_of-update_at p i j (perform p c)
                    (λ n. if is_flag_change p c then n - 1 else n) e.voices (λ v. refl)
                    (omega arith) in
                let was = before.ahead j (omega arith) in ground (arith, same, was);
          },
        ))
  ]

  abbrev pub counted_up : ℕ → Engine p → Engine p
  counted_up i e = on_voice p i (λ v. record v { pending = v.pending + 1 }) e

  pub flag_apply-IsCounted :
      (i : ℕ) (c : Command S) (e : Engine p)
      → is_flag_change p c ≡ true
      → IsCounted p e
      → IsCounted p (flag_apply p i c e)
  unfolding flag_apply
  flag_apply-IsCounted i c e flag before = by_result (
      dsp_apply-AfterApply i c (counted_up i e) (record {
        ahead = λ j inside.
            let size =
              length-update_at i (λ (v : Voice p). record v { pending = v.pending + 1 }) e.voices in
            let same =
              pending_of-update_at p i j (λ v. record v { pending = v.pending + 1 }) (λ n. n + 1)
                e.voices (λ v. refl) (omega arith) in
            let was = before.counted j (omega arith) in ground (arith, same, was);
      }))
    where
      by_result :
          AfterApply i c (dsp_apply p i c (counted_up i e)) → IsCounted p (flag_apply p i c e)
      by_result (inl (taken, right)) = rw taken right
      by_result (inr (dropped, more)) = rw dropped (record {
        counted = λ j inside.
            let vs = (dsp_apply p i c (counted_up i e)).1.voices in
            let size =
              length-update_at i (λ (v : Voice p). record v { pending = v.pending - 1 }) vs in
            let same =
              pending_of-update_at p i j (λ v. record v { pending = v.pending - 1 }) (λ n. n - 1) vs
                (λ v. refl) (omega arith) in
            let was = more.ahead j (omega arith) in ground (arith, same, was);
      })

  pub dsp_apply-IsCounted :
      (i : ℕ) (c : Command S) (e : Engine p)
      → is_flag_change p c ≡ false
      → IsCounted p e
      → IsCounted p (dsp_apply p i c e).1
  dsp_apply-IsCounted i c e plain before = by_result (
      dsp_apply-AfterApply i c e
        (record { ahead = λ j inside. nothing_more j (before.counted j inside) }))
    where
      nothing_more : (j : ℕ) {a b : ℕ} → a ≡ b → a ≡ b + one_if p (eqb i j && is_flag_change p c)
      nothing_more j h = ground arith

      by_result : AfterApply i c (dsp_apply p i c e) → IsCounted p (dsp_apply p i c e).1
      by_result (inl (taken, right)) = right
      by_result (inr (dropped, more)) = record {
        counted = λ j inside. let was = more.ahead j inside in ground (arith, was);
      }

  pub drain_commands-IsCounted : (e : Engine p) → IsCounted p e → IsCounted p (drain_commands p e)
  unfolding drain_commands waiting
  drain_commands-IsCounted e before = record {
    counted = λ j inside.
        let size = length-drain p e.queue e.voices in
        let size_all = length-drain p e.osc_queue (drain p e.queue e.voices) in
        let first = pending_of-drain p e.queue e.voices j (omega arith) in
        let then_osc = pending_of-drain p e.osc_queue (drain p e.queue e.voices) j (omega arith) in
        let was = before.counted j (omega arith) in omega (arith, first, then_osc, was);
  }
