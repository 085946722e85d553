-- ===== src/Block.antt =====
-- src/yield_helper.rs and src/block.rs: futures that yield, and the loop that blocks on a future.
-- `E` is what polls and actions change outside the future: the waker's target and what a predicate
-- reads. A poll gives its result, `none` for pending, the future after it and the world.
pub mod Loops
pub mod Tests
use juggle.Prelude.{
  ℕ, zero, suc, ◌+◌, ◌-◌, ◌≡◌, Bool, true, false, not, Option, none, some, ◌==◌, if◌then◌else◌,
}

pub record Polled (A S E : Type 0) : Type 0 where
  pub result : Option A
  pub future : S
  pub world : E

-- `Yield` and `YieldTimes`.
pub record Yield : Type 0 where
  pub yielded : Bool

pub record YieldTimes : Type 0 where
  pub remaining : ℕ

abbrev pub once : Yield
once = record { yielded = false }

abbrev pub none_yield : Yield
none_yield = record { yielded = true }

abbrev pub times : ℕ → YieldTimes
times remaining = record { remaining = remaining }

module _ {E : Type 0} (wake : E → E) where
  abbrev pub poll_yield : Yield → E → Polled Unit Yield E
  poll_yield y e =
      if y.yielded
      then record { result = some tt; future = y; world = e }
      else record { result = none; future = record { yielded = true }; world = wake e }

  abbrev pub poll_times : YieldTimes → E → Polled Unit YieldTimes E
  poll_times y e =
      if y.remaining == 0
      then record { result = some tt; future = y; world = e }
      else record { result = none; future = record { remaining = y.remaining - 1 }; world = wake e }

  -- `YieldWhile` with its closure, which may change what it captures.
  abbrev pub poll_while : (E → Bool × E) → E → Polled Unit Unit E
  poll_while func e =
      let r = func e in
      if not r.0
      then record { result = some tt; future = tt; world = r.1 }
      else record { result = none; future = tt; world = wake r.1 }

module _ {A S E : Type 0} (poll : S → E → Polled A S E) (on_pending : E → E) where
  -- The loop of `block_on` with fuel for its polls; none when the fuel is used up.
  unfoldable pub block_on : ℕ → S → E → Option (A × E)
  block_on zero s e = none
  block_on (suc fuel) s e =
      let r = poll s e in
      let rest = block_on fuel r.future (on_pending r.world) in
      elim r.result [ none ↦ rest | some value ↦ some (value, r.world) ]
