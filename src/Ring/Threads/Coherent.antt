-- ===== src/Ring/Threads/Coherent.antt =====
-- What holds of the ring between any two steps of its threads.
use softcut_py.Base.{
  ℕ, ◌+◌, ◌%◌, ◌<◌, ◌≡◌, ◌≢◌, refl, sym, ◌∙◌, ap, arith, Bool-cases, inl, inr, Option, none, some,
  List, [], ◌∷◌, ◌++◌, map, length, length-append, length-set, get_or, get_or-set_self, eqb,
}
use native.Mathlib.Decide.{dec_lt}
use mathlib.Core.List.{append_assoc, map-append}
use softcut_py.Ring.{Ring, capacity, next}
use softcut_py.Ring.Held.{next_lem, Held, Held-set, Held-append}
use softcut_py.Ring.Threads.{
  Producer, at_rest, loaded, checked, wrote, Consumer, resting, peeked, seen, moved, State,
  produce_step,
}

-- The slots that the consumer has emptied and not yet given back.
abbrev pub emptied : Consumer → ℕ
emptied resting = 0
emptied (peeked t) = 0
emptied (seen t) = 0
emptied (moved t) = 1

-- What the consumer knows, with `tail` its own and `head` read once.
abbrev pub ConsumerAt : ℕ → ℕ → Consumer → Type 0
ConsumerAt head tail resting = Unit
ConsumerAt head tail (peeked t) = t ≡ tail
ConsumerAt head tail (seen t) = (t ≡ tail) × (tail ≢ head)
ConsumerAt head tail (moved t) = t ≡ tail

publish-ConsumerAt :
    (head tail n : ℕ) (co : Consumer) → ConsumerAt head tail co → n ≢ tail → ConsumerAt n tail co
publish-ConsumerAt head tail n resting k h = tt
publish-ConsumerAt head tail n (peeked t) k h = k
publish-ConsumerAt head tail n (seen t) (k, _) h = (k, λ e. h (sym e))
publish-ConsumerAt head tail n (moved t) k h = k

module _ {ℓ} {A : Type ℓ} where
  -- What the producer knows, with `head` its own and `tail` read once.
  abbrev pub ProducerAt : ℕ → ℕ → Producer A → Type 0
  ProducerAt head tail at_rest = Unit
  ProducerAt head tail (loaded x h) = h ≡ head
  ProducerAt head tail (checked x h n) = (h ≡ head) × (n ≡ next head) × (n ≢ tail)
  ProducerAt head tail (wrote x n) = (n ≡ next head) × (n ≢ tail)

  -- The slot that is written and not yet published.
  abbrev pub Written : List (Option A) → ℕ → Producer A → Type ℓ
  Written buf head at_rest = Unit
  Written buf head (loaded x h) = Unit
  Written buf head (checked x h n) = Unit
  Written buf head (wrote x n) = get_or buf head none ≡ some x

  pub record Coherent (s : State A) (xs : List A) : Type ℓ where
    pub size : length s.ring.buf ≡ capacity
    pub head_in : s.ring.head < capacity
    pub tail_in : s.ring.tail < capacity
    pub room : emptied s.consumer + length xs < capacity
    pub ends : s.ring.head ≡ (s.ring.tail + emptied s.consumer + length xs) % capacity
    pub slots : Held s.ring.buf ((s.ring.tail + emptied s.consumer) % capacity) xs
    pub producer_at : ProducerAt s.ring.head s.ring.tail s.producer
    pub consumer_at : ConsumerAt s.ring.head s.ring.tail s.consumer
    pub written : Written s.ring.buf s.ring.head s.producer
    pub order : map some s.pushed ≡ s.taken ++ map some xs

  abbrev pub IsCoherent : State A → Type ℓ
  IsCoherent s = (xs : List A) × Coherent s xs

  module _ (q : Ring A) (co : Consumer) (pushed : List A) (taken : List (Option A)) (fn : A) where
    abbrev pub at : Producer A → State A
    at pr = record { ring = q; producer = pr; consumer = co; pushed = pushed; taken = taken }

    pub produce_step-IsCoherent :
        (pr : Producer A) (xs : List A)
        → Coherent (at pr) xs
        → IsCoherent (produce_step fn pr (at pr))
    unfolding produce_step
    produce_step-IsCoherent at_rest xs c = (
      xs,
      record {
        size = c.size;
        head_in = c.head_in;
        tail_in = c.tail_in;
        room = c.room;
        ends = c.ends;
        slots = c.slots;
        producer_at = refl;
        consumer_at = c.consumer_at;
        written = tt;
        order = c.order;
      },
    )
    produce_step-IsCoherent (loaded x h) xs c = elim (Bool-cases (eqb (next h) q.tail)) [
      | inl full ↦ rw full (
        xs,
        record {
          size = c.size;
          head_in = c.head_in;
          tail_in = c.tail_in;
          room = c.room;
          ends = c.ends;
          slots = c.slots;
          producer_at = tt;
          consumer_at = c.consumer_at;
          written = tt;
          order = c.order;
        },
      )
      | inr more ↦ rw more (
        xs,
        record {
          size = c.size;
          head_in = c.head_in;
          tail_in = c.tail_in;
          room = c.room;
          ends = c.ends;
          slots = c.slots;
          producer_at = (c.producer_at, ap next c.producer_at, ground arith);
          consumer_at = c.consumer_at;
          written = tt;
          order = c.order;
        },
      )
    ]
    produce_step-IsCoherent (checked x h n) xs c =
        let step = next_lem q.head c.head_in in
        let t = (q.tail + emptied co) % capacity in
        let here : h ≡ q.head = c.producer_at.0 in
        (
          xs,
          record {
            size = length-set q.buf h (some x) ∙ c.size;
            head_in = c.head_in;
            tail_in = c.tail_in;
            room = c.room;
            ends = c.ends;
            slots =
                Held-set q.buf t h (length xs) (some x) xs (omega arith) (omega (arith, c.room))
                  (omega arith) (omega (arith, c.ends, here)) c.slots;
            producer_at = (c.producer_at.1, c.producer_at.2);
            consumer_at = c.consumer_at;
            written =
                rw here
                  (get_or-set_self q.buf q.head (some x) none (omega (arith, c.size, c.head_in)));
            order = c.order;
          },
        )
    produce_step-IsCoherent (wrote x n) xs c =
        let step = next_lem q.head c.head_in in
        let longer = length-append xs (x ∷ []) in
        let t = (q.tail + emptied co) % capacity in
        let n_lem : n ≡ next q.head = c.producer_at.0 in
        let room_left : emptied co + length xs < 4095 =
          elim (dec_lt (emptied co + length xs) 4095) [
            | yes h ↦ h
            | no h ↦ absurd (c.producer_at.1 (omega (arith, c.room, c.ends, c.tail_in)))
          ] in
        (
          xs ++ (x ∷ []),
          record {
            size = c.size;
            head_in = omega (arith, c.head_in);
            tail_in = c.tail_in;
            room = omega (arith, room_left);
            ends = omega (arith, c.ends);
            slots =
                Held-append q.buf t q.head x xs (omega arith) (omega (arith, c.ends)) c.slots
                  c.written;
            producer_at = tt;
            consumer_at = publish-ConsumerAt q.head q.tail n co c.consumer_at c.producer_at.1;
            written = tt;
            order =
                map-append some pushed (x ∷ [])
                ∙ ap (λ ys. ys ++ (some x ∷ [])) c.order
                ∙ append_assoc taken (map some xs) (some x ∷ [])
                ∙ ap (λ ys. taken ++ ys) (sym (map-append some xs (x ∷ [])));
          },
        )
