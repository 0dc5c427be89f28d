-- ===== src/Engine/Pending.antt =====
-- `flag_changes_pending_` of src/softcut/_core.cpp: while a change of `rec` or `rec_once` is queued the getters
-- show the mirrors, and else what the DSP voice published. The count is that of the changes that wait.
pub mod Apply
pub mod Keeps
pub mod Changes
use softcut_py.Base.{
  ℕ, zero, suc, ◌+◌, ◌-◌, ◌<◌, ◌≡◌, ◌≢◌, refl, sym, ◌∙◌, ap, arith, String, Bool, true, false, List,
  [], ◌∷◌, ◌++◌, map, length, length-map, get_or, ltb, eqb, ◌&&◌, if◌then◌else◌, Bool-cases, ◌⊎◌,
  inl, inr,
}
use native.Mathlib.Decide.{ℕ_discrete}
use softcut_py.Platform.{Platform, Command}
use softcut_py.Voice.{Voice, perform, is_flag_change}
use softcut_py.Engine.{
  Engine, update_at, on_voice, queue_room, dsp_apply, flag_apply, drain, drain_commands,
}
use softcut_py.Engine.Shape.{length-update_at}
use softcut_py.Mixer.Frames.{get_or-update_at_self, get_or-update_at_ne}

module _ (p : Platform) where
  open p use {S}

  abbrev pub pendings : List (Voice p) → List ℕ
  pendings vs = map (λ v. v.pending) vs

  abbrev pub one_if : Bool → ℕ
  one_if true = 1
  one_if false = 0

  -- The flag changes of voice `j` that wait in a queue.
  unfoldable pub waiting : ℕ → List (ℕ × Command S) → ℕ
  waiting j [] = 0
  waiting j ((i, c) ∷ queue) = one_if (eqb i j && is_flag_change p c) + waiting j queue

  waiting-append :
      (j : ℕ) (q r : List (ℕ × Command S)) → waiting j (q ++ r) ≡ waiting j q + waiting j r
  unfolding waiting
  waiting-append j [] r = omega arith
  waiting-append j ((i, c) ∷ q) r = omega (arith, waiting-append j q r)

  pendings-update_at :
      (i : ℕ) (f : Voice p → Voice p) (g : ℕ → ℕ) (vs : List (Voice p))
      → ((v : Voice p) → (f v).pending ≡ g v.pending)
      → pendings (update_at i f vs) ≡ update_at i g (pendings vs)
  pendings-update_at i f g [] h = refl
  pendings-update_at zero f g (v ∷ vs) h = ap (λ n. n ∷ pendings vs) (h v)
  pendings-update_at (suc i) f g (v ∷ vs) h =
      ap (λ ns. v.pending ∷ ns) (pendings-update_at i f g vs h)

  -- The pending count of voice `j`, after a change of voice `i`.
  abbrev pub pending_of : List (Voice p) → ℕ → ℕ
  pending_of vs j = get_or (pendings vs) j 0

  pub pending_of-update_at :
      (i j : ℕ) (f : Voice p → Voice p) (g : ℕ → ℕ) (vs : List (Voice p))
      → ((v : Voice p) → (f v).pending ≡ g v.pending)
      → j < length vs
      → pending_of (update_at i f vs) j ≡ (if eqb i j then g (pending_of vs j) else pending_of vs j)
  pending_of-update_at i j f g vs h inside =
      let size = length-map vs (λ (v : Voice p). v.pending) in
      ap (λ ns. get_or ns j 0) (pendings-update_at i f g vs h) ∙ by_place (ℕ_discrete i j) size
    where
      by_place :
          Dec (i ≡ j)
          → length (pendings vs) ≡ length vs
          → get_or (update_at i g (pendings vs)) j 0
            ≡ (if eqb i j then g (pending_of vs j) else pending_of vs j)
      by_place (yes e) size =
          let same : eqb i j ≡ true = ground arith in
          rw same (
            ap (λ k. get_or (update_at k g (pendings vs)) j 0) e
            ∙ get_or-update_at_self j g (pendings vs) 0 (omega arith))
      by_place (no ne) size =
          let apart : eqb i j ≡ false = ground arith in
          rw apart (get_or-update_at_ne i j g (pendings vs) 0 ne)

  -- Running what waits counts it down.
  pub pending_of-drain :
      (q : List (ℕ × Command S)) (vs : List (Voice p)) (j : ℕ)
      → j < length vs
      → pending_of (drain p q vs) j ≡ pending_of vs j - waiting j q
  unfolding drain waiting perform
  pending_of-drain [] vs j inside = omega arith
  pending_of-drain ((i, c) ∷ q) vs j inside =
      let size = length-update_at i (perform p c) vs in
      let here =
        pending_of-update_at i j (perform p c) (λ n. if is_flag_change p c then n - 1 else n) vs
          (λ v. refl) inside in
      let later = pending_of-drain q (update_at i (perform p c) vs) j (omega arith) in
      ground (arith, here, later)

  pub length-drain :
      (q : List (ℕ × Command S)) (vs : List (Voice p)) → length (drain p q vs) ≡ length vs
  unfolding drain
  length-drain [] vs = refl
  length-drain ((i, c) ∷ q) vs =
      length-drain q (update_at i (perform p c) vs) ∙ length-update_at i (perform p c) vs

  -- Each voice's count is the number of its flag changes that wait in the two queues.
  pub record IsCounted (e : Engine p) : Type 0 where
    pub counted :
        (j : ℕ)
        → j < length e.voices
        → pending_of e.voices j ≡ waiting j e.queue + waiting j e.osc_queue

  pub waiting-one :
      (i j : ℕ) (c : Command S) (q : List (ℕ × Command S))
      → waiting j (q ++ ((i, c) ∷ [])) ≡ waiting j q + one_if (eqb i j && is_flag_change p c)
  unfolding waiting
  waiting-one i j c q = omega (arith, waiting-append j q ((i, c) ∷ []))

  -- A change of the voices that leaves the counts.
  pub on_voice-IsCounted :
      (i : ℕ) (f : Voice p → Voice p) (e : Engine p)
      → ((v : Voice p) → (f v).pending ≡ v.pending)
      → IsCounted e
      → IsCounted (on_voice p i f e)
  on_voice-IsCounted i f e keep c = record {
    counted = λ j inside.
        let size = length-update_at i f e.voices in
        let same = pending_of-update_at i j f (λ n. n) e.voices keep (omega arith) in
        let before = c.counted j (omega arith) in ground (arith, same, before);
  }
