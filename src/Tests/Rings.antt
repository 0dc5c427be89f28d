-- ===== src/Tests/Rings.antt =====
-- Runs of the command ring and of its two threads.
use softcut_py.Base.{
  ℕ, true, false, ◌+◌, ◌≡◌, ◌<◌, refl, some, List, [], ◌∷◌, ◌++◌, map, length, set, arith,
}
use softcut_py.Base.Int.{ℤ, pos}
use softcut_py.Base.Exec.{Result, ok, err}
use softcut_py.Engine.Methods.{new_engine}
use softcut_py.Platform.{Command, set_param}
use softcut_py.Engine.{Engine, start, dsp_apply, flag_apply, set_rec, drain}
use softcut_py.Ring.{Ring, new_ring, capacity, next, push}
use softcut_py.Ring.Refines.{
  Holds, Op, put, get, new_ring-Holds, pushed-Holds, ring_replies, queue_replies,
  ring_replies-queue_replies,
}
use softcut_py.Ring.Drain.{Entry, drain_ring, drain_ring_total, dsp_apply-push}
use softcut_py.Ring.Threads.{Step, produce, consume, run, new_threads}
use softcut_py.Ring.Threads.Order.{taken-run}
use softcut_py.Engine.OscQueue.{osc_set_rec, osc_flag_apply, osc_apply}
use softcut_py.Engine.Pending.{pending_of, waiting}
use softcut_py.Engine.Pending.Changes.{
  pending-waiting, unchanged, one_more, started, rec_set, osc_rec_set,
}
use softcut_py.Tests.{test_platform, test_engine, running_engine}

abbrev calls : List (Op ℕ)
calls = put 7 ∷ get ∷ get ∷ []

ring_replies-queue_replies_example : ring_replies calls new_ring ≡ queue_replies calls []
ring_replies-queue_replies_example = ring_replies-queue_replies calls new_ring [] new_ring-Holds

abbrev change : ℕ × Command ℤ
change = (1, set_param "rate" (pos 2))

abbrev one_change : Ring (Entry test_platform)
one_change = record (new_ring {A = Entry test_platform}) {
  buf =
      set (new_ring {A = Entry test_platform}).buf (new_ring {A = Entry test_platform}).head
        (some change);
  head = next (new_ring {A = Entry test_platform}).head;
}

drain_ring_total_example :
    (q' : Ring (Entry test_platform)) × (drain_ring test_platform 2 one_change test_engine.voices
      ≡ some (drain test_platform (change ∷ []) test_engine.voices, q'))
    × Holds q' []
drain_ring_total_example =
    drain_ring_total test_platform 2 one_change (change ∷ []) test_engine.voices
      (pushed-Holds change new_ring [] new_ring-Holds (omega arith)) (omega arith)

dsp_apply-push_example :
    ((dsp_apply test_platform 1 (set_param "rate" (pos 2)) running_engine).0
      ≡ (push change new_ring).0)
    × Holds
        (push change new_ring).1
        (dsp_apply test_platform 1 (set_param "rate" (pos 2)) running_engine).1.queue
dsp_apply-push_example =
    dsp_apply-push test_platform 1 (set_param "rate" (pos 2)) running_engine new_ring refl
      new_ring-Holds

-- A pop that starts before the push is published, and one after.
abbrev interleaved : List (Step ℕ)
interleaved =
    produce 5
    ∷ consume
    ∷ produce 5
    ∷ produce 5
    ∷ consume
    ∷ produce 5
    ∷ consume
    ∷ consume
    ∷ consume
    ∷ []

taken-run_example :
    (xs : List ℕ) × (map some (run interleaved new_threads).pushed
      ≡ (run interleaved new_threads).taken ++ map some xs)
    × (length xs < capacity)
taken-run_example = taken-run interleaved

-- The pop that found the ring empty is over, and the next one has moved 5 out.
interleaved-taken : (run interleaved new_threads).taken ≡ some 5 ∷ []
unfolding run new_threads
interleaved-taken = refl

abbrev made : Result (Engine test_platform)
made = new_engine test_platform (pos 2) (pos 1) "duplex" (pos 4) (pos 2) "upstream"

abbrev fresh : Engine test_platform
fresh = elim made [ err e ↦ test_engine | ok e ↦ e ]

made-ok : made ≡ ok fresh
unfolding new_engine
made-ok = refl

-- Python turns `rec` of the second voice on, and the native receiver turns it off, while the engine runs.
abbrev live : Engine test_platform
live = (start test_platform true fresh).1

abbrev rec_on : Engine test_platform
rec_on = set_rec test_platform 1 true live

abbrev rec_on_off : Engine test_platform
rec_on_off = osc_set_rec test_platform 1 false rec_on

two_waiting : (length rec_on_off.voices ≡ 2) × (pending_of test_platform rec_on_off.voices 1 ≡ 2)
unfolding new_engine start set_rec osc_set_rec flag_apply osc_flag_apply dsp_apply osc_apply
two_waiting = (refl, refl)

pending-waiting_example :
    pending_of test_platform rec_on_off.voices 1
    ≡ waiting test_platform 1 rec_on_off.queue + waiting test_platform 1 rec_on_off.osc_queue
pending-waiting_example =
    pending-waiting test_platform (pos 2) (pos 1) "duplex" (pos 4) (pos 2) "upstream" made-ok
      (one_more (one_more (one_more (unchanged fresh) (started true fresh)) (rec_set 1 true live))
        (osc_rec_set 1 false rec_on))
      1 (rw two_waiting.0 (omega arith))
