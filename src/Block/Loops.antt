-- ===== src/Block/Loops.antt =====
-- src/block.rs and src/yield_helper.rs: how often `block_on` polls.
use juggle.Prelude.{ℕ, zero, suc, ◌-◌, ◌<◌, ◌≡◌, ◌↔◌, refl, sym, ap, ◌∙◌, Option, none, some, arith}
use juggle.Block.{Polled, times, poll_times, block_on}

module _ {A S E : Type 0} (poll : S → E → Polled A S E) (on_pending : E → E) where
  -- The future and the world before the poll with the number `k`, when all before it are pending.
  abbrev pub before : ℕ → S → E → S × E
  before zero s e = (s, e)
  before (suc k) s e = before k (poll s e).future (on_pending (poll s e).world)

  abbrev pub nth_poll : ℕ → S → E → Polled A S E
  nth_poll k s e = poll (before k s e).0 (before k s e).1

  -- When the poll with the number `k` is the first to be ready, `block_on` returns its result with
  -- the world after it, on any fuel for more than `k` polls.
  block_on-Returns :
      (fuel k : ℕ) (s : S) (e : E) (value : A)
      → ((j : ℕ) → j < k → (nth_poll j s e).result ≡ none)
      → (nth_poll k s e).result ≡ some value
      → k < fuel
      → block_on poll on_pending fuel s e ≡ some (value, (nth_poll k s e).world)
  unfolding block_on
  block_on-Returns zero k s e value waits done h = absurd (omega arith)
  block_on-Returns (suc fuel) zero s e value waits done h = rw (done, block_on) refl
  block_on-Returns (suc fuel) (suc k) s e value waits done h =
      rw (waits 0 (omega arith), block_on)
        (block_on-Returns fuel k (poll s e).future (on_pending (poll s e).world) value
          (λ j lt. waits (suc j) (omega arith)) done (omega arith))

  -- The first poll and the rest of the loop.
  by_first :
      (fuel : ℕ) (s : S) (e : E) (o : Option A) (rest : Option (A × E))
      → (poll s e).result ≡ o
      → (rest ≡ none) ↔ (
          (j : ℕ)
          → j < fuel
          → (nth_poll j (poll s e).future (on_pending (poll s e).world)).result ≡ none)
      → ((elim o [ none ↦ rest | some value ↦ some (value, (poll s e).world) ]) ≡ none)
        ↔ ((j : ℕ) → j < suc fuel → (nth_poll j s e).result ≡ none)
  by_first fuel s e none rest q later =
      ((λ waits. early waits), (λ all. later.1 (λ j lt. all (suc j) (omega arith))))
    where
      early : rest ≡ none → (j : ℕ) → j < suc fuel → (nth_poll j s e).result ≡ none
      early waits zero lt = q
      early waits (suc i) lt = later.0 waits i (omega arith)
  by_first fuel s e (some value) rest q later =
      ((λ waits. absurd (cc waits)), (λ all. absurd (cc (sym q ∙ all 0 (omega arith)))))

  -- `block_on` uses up its fuel exactly when each of as many polls is pending.
  pub block_on-Waits :
      (fuel : ℕ) (s : S) (e : E)
      → (block_on poll on_pending fuel s e ≡ none)
        ↔ ((j : ℕ) → j < fuel → (nth_poll j s e).result ≡ none)
  unfolding block_on
  block_on-Waits zero s e = ((λ q j lt. absurd (omega arith)), (λ waits. refl))
  block_on-Waits (suc fuel) s e =
      by_first fuel s e (poll s e).result _ refl
        (block_on-Waits fuel (poll s e).future (on_pending (poll s e).world))

  -- A round of the loop behind a pending poll.
  pending_round :
      (fuel : ℕ) (s s' : S) (e w : E)
      → poll s e ≡ record { result = none; future = s'; world = w }
      → block_on poll on_pending (suc fuel) s e ≡ block_on poll on_pending fuel s' (on_pending w)
  unfolding block_on
  pending_round fuel s s' e w q = ap round q
    where
      round : Polled A S E → Option (A × E)
      round r = elim r.result [
        | none ↦ block_on poll on_pending fuel r.future (on_pending r.world)
        | some value ↦ some (value, r.world)
      ]

module _ {E : Type 0} (wake on_pending : E → E) where
  abbrev pub repeat : ℕ → E → E
  repeat zero e = e
  repeat (suc n) e = repeat n (on_pending (wake e))

  poll_times-suc :
      (n : ℕ) (e : E)
      → poll_times wake (times (suc n)) e
        ≡ record { result = none; future = times n; world = wake e }
  poll_times-suc n e = ground (arith, less n)
    where
      less : (k : ℕ) → suc k - 1 ≡ k
      less k = omega arith

  -- Blocking on `Yield::times(n)` wakes the waker and runs the action `n` times each, in turns, and
  -- returns, on any fuel for more than `n` polls.
  pub block_on-times :
      (fuel n : ℕ) (e : E)
      → n < fuel
      → block_on (poll_times wake) on_pending fuel (times n) e ≡ some (tt, repeat n e)
  unfolding block_on
  block_on-times zero n e h = absurd (omega arith)
  block_on-times (suc fuel) zero e h = refl
  block_on-times (suc fuel) (suc n) e h =
      pending_round (poll_times wake) on_pending fuel (times (suc n)) (times n) e (wake e)
        (poll_times-suc n e)
      ∙ block_on-times fuel n (on_pending (wake e)) (omega arith)
