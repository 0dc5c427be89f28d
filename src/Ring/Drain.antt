-- ===== src/Ring/Drain.antt =====
-- The ring under `Voice::dsp_apply` and `Engine::drain_commands` of src/softcut/_core.cpp: the
-- engine's queue is what its ring holds.
use softcut_py.Base.{
  ℕ, zero, suc, ◌<◌, ◌≡◌, refl, arith, Bool, true, false, Option, none, some, List, [], ◌∷◌, length,
  lt→ltb, not_lt→ltb, set,
}
use native.Mathlib.Decide.{dec_lt}
use softcut_py.Platform.{Platform, Command}
use softcut_py.Voice.{Voice, perform}
use softcut_py.Engine.{Engine, update_at, queue_room, dsp_apply, drain}
use softcut_py.Ring.{Ring, next, push, pop}
use softcut_py.Ring.Refines.{
  Holds, push-full, push-room, pushed-Holds, pop-empty, pop-oldest, popped-Holds,
}

module _ (p : Platform) where
  open p use {S}

  -- A command with the place of its voice.
  abbrev pub Entry : Type 0
  Entry = ℕ × Command S

  abbrev pub Drained : Type 0
  Drained = Option (List (Voice p) × Ring Entry)

  -- One test of the loop, and what follows it; an empty `std::function` cannot be called.
  unfoldable pub drain_round :
      (Ring Entry → List (Voice p) → Drained)
      → Bool × Option Entry × Ring Entry
      → List (Voice p)
      → Drained
  unfolding perform
  drain_round rest (false, _, q) vs = some (vs, q)
  drain_round rest (true, none, q) vs = none
  drain_round rest (true, some (i, c), q) vs = rest q (update_at i (perform p c) vs)

  -- `while (queue.pop(fn)) fn();`, with fuel.
  unfoldable pub drain_ring : ℕ → Ring Entry → List (Voice p) → Drained
  unfolding pop drain_round
  drain_ring zero q vs = none
  drain_ring (suc fuel) q vs = drain_round (drain_ring fuel) (pop q) vs

  -- The loop that empties the ring ends after at most as many rounds as the ring has entries, and
  -- one more. It runs them all, oldest first, meets no empty slot, and leaves the ring empty.
  pub drain_ring_total :
      (fuel : ℕ) (q : Ring Entry) (xs : List Entry) (vs : List (Voice p))
      → Holds q xs
      → length xs < fuel
      → (q' : Ring Entry) × (drain_ring fuel q vs ≡ some (drain p xs vs, q')) × Holds q' []
  unfolding drain_ring drain drain_round
  drain_ring_total zero q xs vs holds h = absurd (omega arith)
  drain_ring_total (suc fuel) q [] vs holds h = (q, rw (pop-empty q holds), holds)
  drain_ring_total (suc fuel) q ((i, c) ∷ xs) vs holds h =
      let q' : Ring Entry = record q { buf = set q.buf q.tail none; tail = next q.tail } in
      rw (pop-oldest q (i, c) xs holds) (
        drain_ring_total fuel q' xs (update_at i (perform p c) vs) (popped-Holds q (i, c) xs holds)
          (omega arith))

  -- On a running engine whose ring holds its queue, `dsp_apply` tells what the push on the ring
  -- tells, and the ring then holds the new queue.
  pub dsp_apply-push :
      (i : ℕ) (c : Command S) (e : Engine p) (q : Ring Entry)
      → e.running ≡ true
      → Holds q e.queue
      → ((dsp_apply p i c e).0 ≡ (push (i, c) q).0)
        × Holds (push (i, c) q).1 (dsp_apply p i c e).1.queue
  unfolding dsp_apply
  dsp_apply-push i c e q run holds = elim (dec_lt (length e.queue) queue_room) [
    | yes more ↦
        rw (run, lt→ltb _ _ more, push-room (i, c) q e.queue holds more)
          (refl, pushed-Holds (i, c) q e.queue holds more)
    | no full ↦
        rw (run, not_lt→ltb _ _ full, push-full (i, c) q e.queue holds (omega arith)) (refl, holds)
  ]
