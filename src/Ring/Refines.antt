-- ===== src/Ring/Refines.antt =====
-- A ring behaves as a bounded first-in first-out queue, under any sequence of its two operations.
use softcut_py.Base.{
  ◌+◌, ◌%◌, ◌≤◌, ◌<◌, ◌≡◌, refl, ◌∙◌, ap, arith, Bool, true, false, Option, none, some, List, [],
  ◌∷◌, ◌++◌, length, length-append, length-set, length-replicate, set, get_or-set_self, ltb, lt→ltb,
  not_lt→ltb, if◌then◌else◌,
}
use native.Mathlib.Decide.{dec_lt}
use softcut_py.Engine.{queue_room}
use softcut_py.Ring.{Ring, capacity, new_ring, next, push, pop}
use softcut_py.Ring.Held.{next_lem, Held, Held-set, Held-append}

pub data Op {ℓ} (A : Type ℓ) : Type ℓ where
  put : A → Op A
  get : Op A

-- What a caller sees: the result, and the function that `out` holds.
abbrev pub Reply {ℓ} : Type ℓ → Type ℓ
Reply A = Bool × Option A

module _ {ℓ} {A : Type ℓ} where
  pub record Holds (q : Ring A) (xs : List A) : Type ℓ where
    pub size : length q.buf ≡ capacity
    pub head_in : q.head < capacity
    pub tail_in : q.tail < capacity
    pub room : length xs < capacity
    pub ends : q.head ≡ (q.tail + length xs) % capacity
    pub slots : Held q.buf q.tail xs

  -- The queue that a client may think of.

  unfoldable pub enqueue : A → List A → Bool × List A
  enqueue x xs = if ltb (length xs) queue_room then (true, xs ++ (x ∷ [])) else (false, xs)

  unfoldable pub dequeue : List A → Bool × Option A × List A
  dequeue [] = (false, none, [])
  dequeue (x ∷ xs) = (true, some x, xs)

  unfoldable pub queue_replies : List (Op A) → List A → List (Reply A)
  unfolding enqueue dequeue
  queue_replies [] xs = []
  queue_replies (put x ∷ ops) xs = ((enqueue x xs).0, none) ∷ queue_replies ops (enqueue x xs).1
  queue_replies (get ∷ ops) xs =
      let (b, out, rest) = dequeue xs in (b, out) ∷ queue_replies ops rest

  unfoldable pub ring_replies : List (Op A) → Ring A → List (Reply A)
  unfolding push pop
  ring_replies [] q = []
  ring_replies (put x ∷ ops) q = ((push x q).0, none) ∷ ring_replies ops (push x q).1
  ring_replies (get ∷ ops) q = let (b, out, q') = pop q in (b, out) ∷ ring_replies ops q'

  empty_slot : Option A
  empty_slot = none

  pub new_ring-Holds : Holds new_ring []
  unfolding new_ring empty_slot
  new_ring-Holds = record {
    size = length-replicate capacity empty_slot;
    head_in = omega arith;
    tail_in = omega arith;
    room = omega arith;
    ends = refl;
    slots = tt;
  }

  -- The ring is full exactly when the queue is.
  pub push-full :
      (x : A) (q : Ring A) (xs : List A)
      → Holds q xs
      → queue_room ≤ length xs
      → push x q ≡ (false, q)
  unfolding push
  push-full x q xs holds full =
      let step = next_lem q.head holds.head_in in
      let full' : next q.head ≡ q.tail = omega (arith, holds.ends, holds.room, holds.tail_in) in
      ground arith

  pub push-room :
      (x : A) (q : Ring A) (xs : List A)
      → Holds q xs
      → length xs < queue_room
      → push x q ≡ (true, record q { buf = set q.buf q.head (some x); head = next q.head })
  unfolding push
  push-room x q xs holds more =
      let step = next_lem q.head holds.head_in in
      let apart : next q.head ≡ q.tail → ⊥ =
        λ (e : next q.head ≡ q.tail). omega (arith, holds.ends, holds.room, holds.tail_in) in
      ground arith

  pub pushed-Holds :
      (x : A) (q : Ring A) (xs : List A)
      → Holds q xs
      → length xs < queue_room
      → Holds (record q { buf = set q.buf q.head (some x); head = next q.head }) (xs ++ (x ∷ []))
  pushed-Holds x q xs holds more =
      let step = next_lem q.head holds.head_in in
      let longer = length-append xs (x ∷ []) in
      record {
        size = length-set q.buf q.head (some x) ∙ holds.size;
        head_in = omega (arith, holds.head_in);
        tail_in = holds.tail_in;
        room = omega arith;
        ends = omega (arith, holds.ends, holds.tail_in);
        slots =
            Held-append (set q.buf q.head (some x)) q.tail q.head x xs holds.tail_in holds.ends
              (Held-set q.buf q.tail q.head (length xs) (some x) xs holds.tail_in holds.room
                (omega arith) holds.ends holds.slots)
              (get_or-set_self q.buf q.head (some x) none
                (omega (arith, holds.size, holds.head_in)));
      }

  pub pop-empty : (q : Ring A) → Holds q [] → pop q ≡ (false, none, q)
  unfolding pop
  pop-empty q holds =
      let same : q.tail ≡ q.head = omega (arith, holds.ends, holds.tail_in) in ground arith

  pub pop-oldest :
      (q : Ring A) (x : A) (xs : List A)
      → Holds q (x ∷ xs)
      → pop q ≡ (true, some x, record q { buf = set q.buf q.tail none; tail = next q.tail })
  unfolding pop
  pop-oldest q x xs holds =
      let apart : q.tail ≡ q.head → ⊥ =
        λ (e : q.tail ≡ q.head). omega (arith, holds.ends, holds.tail_in, holds.room) in
      let here = holds.slots.0 in ground arith

  pub popped-Holds :
      (q : Ring A) (x : A) (xs : List A)
      → Holds q (x ∷ xs)
      → Holds (record q { buf = set q.buf q.tail none; tail = next q.tail }) xs
  popped-Holds q x xs holds =
      let step = next_lem q.tail holds.tail_in in
      record {
        size = length-set q.buf q.tail none ∙ holds.size;
        head_in = holds.head_in;
        tail_in = omega (arith, holds.tail_in);
        room = omega (arith, holds.room);
        ends = omega (arith, holds.ends, holds.tail_in);
        slots = rw step (
            Held-set q.buf ((q.tail + 1) % capacity) q.tail 4095 none xs (omega arith) (omega arith)
              (omega (arith, holds.room)) (omega (arith, holds.tail_in)) holds.slots.1);
      }

  -- Whatever functions a ring holds, any sequence of pushes and pops gives the replies of a
  -- first-in first-out queue of at most 4095 entries that holds the same functions: a push
  -- fails exactly at 4095 entries, and a pop exactly at none.
  pub ring_replies-queue_replies :
      (ops : List (Op A)) (q : Ring A) (xs : List A)
      → Holds q xs
      → ring_replies ops q ≡ queue_replies ops xs
  unfolding ring_replies queue_replies enqueue dequeue
  ring_replies-queue_replies [] q xs holds = refl
  ring_replies-queue_replies (put x ∷ ops) q xs holds = elim (dec_lt (length xs) queue_room) [
    | yes more ↦
        let q' : Ring A = record q { buf = set q.buf q.head (some x); head = next q.head } in
        rw (push-room x q xs holds more, lt→ltb _ _ more)
          (ap (◌∷◌ (true, none))
            (ring_replies-queue_replies ops q' (xs ++ (x ∷ [])) (pushed-Holds x q xs holds more)))
    | no full ↦
        rw (push-full x q xs holds (omega arith), not_lt→ltb _ _ full)
          (ap (◌∷◌ (false, none)) (ring_replies-queue_replies ops q xs holds))
  ]
  ring_replies-queue_replies (get ∷ ops) q [] holds =
      rw (pop-empty q holds) (ap (◌∷◌ (false, none)) (ring_replies-queue_replies ops q [] holds))
  ring_replies-queue_replies (get ∷ ops) q (x ∷ xs) holds =
      let q' : Ring A = record q { buf = set q.buf q.tail none; tail = next q.tail } in
      rw (pop-oldest q x xs holds)
        (ap (◌∷◌ (true, some x)) (ring_replies-queue_replies ops q' xs (popped-Holds q x xs holds)))
