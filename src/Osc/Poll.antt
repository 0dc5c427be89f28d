-- ===== src/Osc/Poll.antt =====
-- `_PhasePoll` of src/softcut/osc.py, the background phase reporter of the python-osc transport.
use softcut_py.Base.{
  ℕ, suc, ◌+◌, Bool, true, false, not, Option, none, some, List, [], ◌∷◌, ◌++◌, if◌then◌else◌,
  length, replicate,
}
use softcut_py.Base.Exec.{Exec, Result, ok, err, os_error}
use softcut_py.Platform.{Platform}
use softcut_py.Voice.{Voice}

module _ (p : Platform) where
  open p use {F, feq, widen, quant_phase}

  pub record PhasePoll : Type 0 where
    -- `_last`, by voice
    pub last : List (Option F)
    -- the thread is alive, and `_errors`
    pub running : Bool
    pub errors : ℕ
    -- the messages that have gone out: voice and phase
    pub sent : List (ℕ × F)

  -- `float(eng[i].quant_phase)` of each voice
  abbrev pub phases : List (Voice p) → List F
  phases [] = []
  phases (v ∷ vs) = widen (quant_phase v.dsp) ∷ phases vs

  -- `phase != self._last[i]`
  abbrev pub changed : F → Option F → Bool
  changed x none = true
  changed x (some y) = not (feq x y)

  -- The loop of `poll_once` from voice `i` on. `sends` tells which messages the client can send; a
  -- send that fails raises, and the values of the voices from there on stay as they are.
  unfoldable pub scan :
      (ℕ → Bool) → ℕ → List F → List (Option F) → Result (Unit {0}) × List (Option F) × List (ℕ × F)
  scan sends i [] last = (ok tt, last, [])
  scan sends i (x ∷ xs) [] = (ok tt, [], [])
  scan sends i (x ∷ xs) (l ∷ last) =
      let (r, last', out) = scan sends (suc i) xs last in
      if changed x l
      then if sends i then (r, some x ∷ last', (i, x) ∷ out) else (err os_error, l ∷ last, [])
      else (r, l ∷ last', out)

  unfoldable pub poll_once : (ℕ → Bool) → List (Voice p) → Exec PhasePoll Unit
  unfolding scan
  poll_once sends vs q =
      let (r, last, out) = scan sends 0 (phases vs) q.last in
      (r, record q { last = last; sent = q.sent ++ out })

  -- `reset()`
  unfoldable pub reset : PhasePoll → PhasePoll
  reset q = record q { last = replicate (length q.last) none }

  unfoldable pub start : PhasePoll → PhasePoll
  start q =
      if q.running
      then q
      else record q { last = replicate (length q.last) none; running = true; errors = 0 }

  -- The thread ends within the second that `join` waits.
  unfoldable pub stop : PhasePoll → PhasePoll
  stop q = record q { running = false }

  -- One round of `_run`: an exception is counted and the thread goes on.
  unfoldable pub run_round : (ℕ → Bool) → List (Voice p) → PhasePoll → PhasePoll
  unfolding poll_once
  run_round sends vs q =
      let (r, q') = poll_once sends vs q in
      elim r [ ok a ↦ q' | err e ↦ record q' { errors = q'.errors + 1 } ]
