-- ===== src/Ring/Threads.antt =====
-- The two threads of the ring of src/shared/command_queue.hpp: one calls `push`, one calls `pop`,
-- and each access to what they share is a step of its own, in any order. A step reads or writes at
-- once what the steps before it left, as the acquire and release orders of the source arrange
-- for a ring with one thread at each end.
pub mod Coherent
pub mod Order
use softcut_py.Base.{
  ℕ, ◌+◌, true, false, Option, none, some, List, [], ◌∷◌, ◌++◌, ◌==◌, nat_eq, if◌then◌else◌, get_or,
  set,
}
use softcut_py.Ring.{Ring, next, new_ring}

-- Where a call of `push` stands, with its argument and its locals `h` and `n`.
pub data Producer {ℓ} (A : Type ℓ) : Type ℓ where
  at_rest : Producer A
  loaded : A → ℕ → Producer A
  checked : A → ℕ → ℕ → Producer A
  wrote : A → ℕ → Producer A

-- Where a call of `pop` stands, with its local `t`.
pub data Consumer : Type 0 where
  resting : Consumer
  peeked seen moved : ℕ → Consumer

-- With the functions whose push has returned `true`, and what the pops have moved out.
pub record State {ℓ} (A : Type ℓ) : Type ℓ where
  pub ring : Ring A
  pub producer : Producer A
  pub consumer : Consumer
  pub pushed : List A
  pub taken : List (Option A)

pub data Step {ℓ} (A : Type ℓ) : Type ℓ where
  -- the control thread goes on; at rest, it calls `push` with this function
  produce : A → Step A
  -- the audio thread goes on; at rest, it calls `pop`
  consume : Step A

module _ {ℓ} {A : Type ℓ} where
  unfoldable pub produce_step : A → Producer A → State A → State A
  unfolding next
  produce_step fn at_rest s = record s { producer = loaded fn s.ring.head }
  produce_step fn (loaded x h) s =
      if next h == s.ring.tail
      then record s { producer = at_rest }
      else record s { producer = checked x h (next h) }
  produce_step fn (checked x h n) s = record s {
    ring = record s.ring { buf = set s.ring.buf h (some x) };
    producer = wrote x n;
  }
  produce_step fn (wrote x n) s = record s {
    ring = record s.ring { head = n };
    producer = at_rest;
    pushed = s.pushed ++ (x ∷ []);
  }

  unfoldable pub consume_step : Consumer → State A → State A
  unfolding next
  consume_step resting s = record s { consumer = peeked s.ring.tail }
  consume_step (peeked t) s =
      if t == s.ring.head then record s { consumer = resting } else record s { consumer = seen t }
  consume_step (seen t) s = record s {
    ring = record s.ring { buf = set s.ring.buf t none };
    consumer = moved t;
    taken = s.taken ++ (get_or s.ring.buf t none ∷ []);
  }
  consume_step (moved t) s = record s { ring = record s.ring { tail = next t }; consumer = resting }

  unfoldable pub step : Step A → State A → State A
  unfolding produce_step consume_step
  step (produce fn) s = produce_step fn s.producer s
  step consume s = consume_step s.consumer s

  unfoldable pub run : List (Step A) → State A → State A
  unfolding step
  run [] s = s
  run (m ∷ steps) s = run steps (step m s)

  unfoldable pub new_threads : State A
  unfolding new_ring
  new_threads = record {
    ring = new_ring;
    producer = at_rest;
    consumer = resting;
    pushed = [];
    taken = [];
  }
