-- ===== src/Ring/Threads/Order.antt =====
-- Functions leave the ring in the order in which they came, however the two threads interleave.
use softcut_py.Base.{
  ℕ, ◌+◌, ◌%◌, ◌<◌, ◌≡◌, ◌≢◌, refl, sym, ◌∙◌, ap, arith, Bool-cases, inl, inr, Option, none, some,
  List, [], ◌∷◌, ◌++◌, map, length, length-replicate, length-set, get_or, set, get_or-set_ne, eqb,
  subst,
}
use mathlib.Core.List.{append_assoc}
use softcut_py.Ring.{Ring, new_ring, capacity, next}
use softcut_py.Ring.Held.{next_lem, Held, Held-set}
use softcut_py.Ring.Threads.{
  Producer, at_rest, loaded, checked, wrote, Consumer, resting, peeked, seen, moved, State,
  consume_step, Step, produce, consume, step, run, new_threads,
}
use softcut_py.Ring.Threads.Coherent.{
  Coherent, IsCoherent, ProducerAt, Written, produce_step-IsCoherent,
}

module _ {ℓ} {A : Type ℓ} where
  take-Written :
      (buf : List (Option A)) (head t : ℕ) (pr : Producer A)
      → t ≢ head
      → Written buf head pr
      → Written (set buf t none) head pr
  take-Written buf head t at_rest h w = tt
  take-Written buf head t (loaded x i) h w = tt
  take-Written buf head t (checked x i n) h w = tt
  take-Written buf head t (wrote x n) h w = get_or-set_ne buf none none h ∙ w

  release-ProducerAt :
      (head tail t : ℕ) (pr : Producer A)
      → next head ≢ t
      → ProducerAt head tail pr
      → ProducerAt head t pr
  release-ProducerAt head tail t at_rest h k = tt
  release-ProducerAt head tail t (loaded x i) h k = k
  release-ProducerAt head tail t (checked x i n) h (a, b, c) = (a, b, λ e. h (sym b ∙ e))
  release-ProducerAt head tail t (wrote x n) h (b, c) = (b, λ e. h (sym b ∙ e))

  module _ (q : Ring A) (pr : Producer A) (pushed : List A) (taken : List (Option A)) where
    abbrev pub at : Consumer → State A
    at co = record { ring = q; producer = pr; consumer = co; pushed = pushed; taken = taken }

    consume_step-IsCoherent :
        (co : Consumer) (xs : List A) → Coherent (at co) xs → IsCoherent (consume_step co (at co))
    unfolding consume_step
    consume_step-IsCoherent resting xs c = (
      xs,
      record {
        size = c.size;
        head_in = c.head_in;
        tail_in = c.tail_in;
        room = c.room;
        ends = c.ends;
        slots = c.slots;
        producer_at = c.producer_at;
        consumer_at = refl;
        written = c.written;
        order = c.order;
      },
    )
    consume_step-IsCoherent (peeked t) xs c = elim (Bool-cases (eqb t q.head)) [
      | inl empty ↦ rw empty (
        xs,
        record {
          size = c.size;
          head_in = c.head_in;
          tail_in = c.tail_in;
          room = c.room;
          ends = c.ends;
          slots = c.slots;
          producer_at = c.producer_at;
          consumer_at = tt;
          written = c.written;
          order = c.order;
        },
      )
      | inr more ↦ rw more (
        xs,
        record {
          size = c.size;
          head_in = c.head_in;
          tail_in = c.tail_in;
          room = c.room;
          ends = c.ends;
          slots = c.slots;
          producer_at = c.producer_at;
          consumer_at = (c.consumer_at, ground (arith, c.consumer_at));
          written = c.written;
          order = c.order;
        },
      )
    ]
    consume_step-IsCoherent (seen t) [] c =
        absurd (c.consumer_at.1 (omega (arith, c.ends, c.tail_in)))
    consume_step-IsCoherent (seen t) (x ∷ xs) c =
        let here : t ≡ (q.tail + 0) % capacity = omega (arith, c.consumer_at.0, c.tail_in) in
        let after : ((q.tail + 0) % capacity + 1) % capacity ≡ (q.tail + 1) % capacity =
          omega (arith, c.tail_in) in
        (
          xs,
          record {
            size = length-set q.buf t none ∙ c.size;
            head_in = c.head_in;
            tail_in = c.tail_in;
            room = omega (arith, c.room);
            ends = omega (arith, c.ends);
            slots =
                Held-set q.buf ((q.tail + 1) % capacity) t 4095 none xs (omega arith) (omega arith)
                  (omega (arith, c.room)) (omega (arith, c.consumer_at.0, c.tail_in))
                  (subst (λ i. Held q.buf i xs) after (c.slots.1));
            producer_at = c.producer_at;
            consumer_at = c.consumer_at.0;
            written =
                take-Written q.buf q.head t pr (λ e. c.consumer_at.1 (sym c.consumer_at.0 ∙ e))
                  c.written;
            order =
                c.order
                ∙ sym (append_assoc taken (some x ∷ []) (map some xs))
                ∙ ap (λ v. (taken ++ (v ∷ [])) ++ map some xs)
                    (sym (ap (λ i. get_or q.buf i none) here ∙ c.slots.0));
          },
        )
    consume_step-IsCoherent (moved t) xs c =
        let step = next_lem q.tail c.tail_in in
        let here : next t ≡ next q.tail = ap next c.consumer_at in
        let step_head = next_lem q.head c.head_in in
        (
          xs,
          record {
            size = c.size;
            head_in = c.head_in;
            tail_in = omega arith;
            room = omega (arith, c.room);
            ends = omega (arith, c.ends);
            slots = subst (λ i. Held q.buf i xs) (omega arith) c.slots;
            producer_at =
                release-ProducerAt q.head q.tail (next t) pr
                  (λ e. omega (arith, c.ends, c.room, c.head_in, c.tail_in)) c.producer_at;
            consumer_at = tt;
            written = c.written;
            order = c.order;
          },
        )

  step-IsCoherent : (m : Step A) (s : State A) → IsCoherent s → IsCoherent (step m s)
  unfolding step
  step-IsCoherent (produce fn) s (xs, c) =
      produce_step-IsCoherent s.ring s.consumer s.pushed s.taken fn s.producer xs c
  step-IsCoherent consume s (xs, c) =
      consume_step-IsCoherent s.ring s.producer s.pushed s.taken s.consumer xs c

  run-IsCoherent : (steps : List (Step A)) (s : State A) → IsCoherent s → IsCoherent (run steps s)
  unfolding run
  run-IsCoherent [] s c = c
  run-IsCoherent (m ∷ steps) s c = run-IsCoherent steps (step m s) (step-IsCoherent m s c)

  unused : Option A
  unused = none

  new_threads-IsCoherent : IsCoherent (new_threads {A = A})
  unfolding new_threads new_ring unused
  new_threads-IsCoherent = (
    [],
    record {
      size = length-replicate capacity unused;
      head_in = omega arith;
      tail_in = omega arith;
      room = omega arith;
      ends = refl;
      slots = tt;
      producer_at = tt;
      consumer_at = tt;
      written = tt;
      order = refl;
    },
  )

  -- However the steps of a pushing thread and of a popping thread interleave on a new ring, what
  -- the pops have moved out is, in the same order, what the successful pushes have put in,
  -- less at most 4095 functions at the end that are still in the ring. No pop meets an empty
  -- slot, and none is lost or comes twice.
  pub taken-run :
      (steps : List (Step A))
      → (xs : List A) × (map some (run steps new_threads).pushed
          ≡ (run steps new_threads).taken ++ map some xs)
        × (length xs < capacity)
  taken-run steps =
      let (xs, c) = run-IsCoherent steps new_threads new_threads-IsCoherent in
      (xs, c.order, omega (arith, c.room))
