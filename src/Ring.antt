-- ===== src/Ring.antt =====
-- The ring of commands between a control thread and the audio thread: src/shared/command_queue.hpp.
pub mod Held
pub mod Refines
pub mod Drain
pub mod Threads
use Prim.Native.Nat.{bit_and}
use softcut_py.Base.{
  ℕ, ◌+◌, ◌-◌, Bool, true, false, Option, none, some, List, ◌==◌, nat_eq, if◌then◌else◌, get_or,
  set, replicate,
}

-- `CAP`
abbrev pub capacity : ℕ
capacity = 4096

-- A slot without a function is an empty `std::function`: unused so far, or moved from.
pub record Ring {ℓ} (A : Type ℓ) : Type ℓ where
  pub buf : List (Option A)
  pub head : ℕ
  pub tail : ℕ

module _ {ℓ} {A : Type ℓ} where
  unfoldable pub new_ring : Ring A
  new_ring = record { buf = replicate capacity none; head = 0; tail = 0 }

-- `(i + 1) & (CAP - 1)`
unfoldable pub next : ℕ → ℕ
next i = bit_and (i + 1) (capacity - 1)

module _ {ℓ} {A : Type ℓ} where
  unfoldable pub push : A → Ring A → Bool × Ring A
  unfolding next
  push fn q =
      let n = next q.head in
      if n == q.tail
      then (false, q)
      else (true, record q { buf = set q.buf q.head (some fn); head = n })

  -- What moves into `out` stands between the result and the ring.
  unfoldable pub pop : Ring A → Bool × Option A × Ring A
  unfolding next
  pop q = if q.tail == q.head then (false, none, q) else (
    true,
    get_or q.buf q.tail none,
    record q { buf = set q.buf q.tail none; tail = next q.tail },
  )
