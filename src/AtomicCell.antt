-- ===== src/AtomicCell.antt =====
-- src/utils/cell.rs: a cell that threads swap and change under a mark. The threads' steps on the
-- shared memory interleave; each step is one access of `mark` or `cell`, in a sequentially consistent
-- order. A function that panics is one that returns `none`.
pub mod Exclusion
pub mod Order
pub mod Weak
pub mod Tests
use juggle.Prelude.{
  ℕ, zero, suc, ◌≡◌, Bool, true, false, Option, none, some, List, [], ◌∷◌, ◌++◌, get_elem?, set,
}

-- A call of `try_swap` with a value or of `try_apply` with a function; `R` is what functions return.
pub data Op (T R : Type 0) : Type 0 where
  swaps : T → Op T R
  applies : (T → Option (R × T)) → Op T R

-- What a call that got the mark gives.
pub data Answer (T R : Type 0) : Type 0 where
  swapped : T → Answer T R
  applied : R → Answer T R
  panicked : Answer T R

-- Where a thread is: before the exchange of the mark, behind a failed one (`Err`, with the argument
-- back), before `read_volatile`, before the work on the value that was read, before `write_volatile`
-- of a new value, before `store(false)`, and behind `Ok` or a panic.
pub data Phase (T R : Type 0) : Type 0 where
  starting : Op T R → Phase T R
  refused : Op T R → Phase T R
  reading : Op T R → Phase T R
  working : Op T R → T → Phase T R
  writing : Op T R → T → Answer T R → Phase T R
  releasing : Answer T R → Phase T R
  returned : Answer T R → Phase T R

-- The mark, the content and the thread that accesses them.
pub record Local (T R : Type 0) : Type 0 where
  pub mark : Bool
  pub cell : T
  pub phase : Phase T R

-- `compare_exchange_weak(false, true)` and `unwrap_or_else(identity)`: the value that the mark had,
-- and the mark. With `spurious` the exchange fails although the mark is false.
abbrev pub compare_exchange_weak : Bool → Bool → Bool × Bool
compare_exchange_weak spurious true = (true, true)
compare_exchange_weak true false = (false, false)
compare_exchange_weak false false = (false, true)

module _ {T R : Type 0} where
  -- `if res.unwrap_or_else(identity)`.
  abbrev pub enter : Bool → Op T R → Phase T R
  enter true op = refused op
  enter false op = reading op

  -- `func` on the local copy.
  abbrev pub call : Op T R → Option (R × T) → Phase T R
  call op none = releasing panicked
  call op (some r) = writing op r.1 (applied r.0)

  abbrev pub work : Op T R → T → Phase T R
  work (swaps value) first = writing (swaps value) value (swapped first)
  work (applies func) first = call (applies func) (func first)

  -- A thread's next step; `spurious` is the choice of the weak exchange. A thread that has returned
  -- does nothing more, and one that was refused starts again, as in the loops of `swap` and `apply`.
  unfoldable pub advance : Bool → Local T R → Local T R
  advance spurious l = at l.phase
    where
      at : Phase T R → Local T R
      at (starting op) =
          let r = compare_exchange_weak spurious l.mark in
          record l { mark = r.1; phase = enter r.0 op }
      at (refused op) = record l { phase = starting op }
      at (reading op) = record l { phase = working op l.cell }
      at (working op first) = record l { phase = work op first }
      at (writing op value answer) = record l { cell = value; phase = releasing answer }
      at (releasing answer) = record l { mark = false; phase = returned answer }
      at (returned answer) = l

-- All threads.
pub record Memory (T R : Type 0) : Type 0 where
  pub mark : Bool
  pub cell : T
  pub threads : List (Phase T R)

module _ {T R : Type 0} where
  -- `new`, with no call yet.
  abbrev pub new : T → Memory T R
  new value = record { mark = false; cell = value; threads = [] }

  abbrev pub put_back : ℕ → Memory T R → Local T R → Memory T R
  put_back i s l = record { mark = l.mark; cell = l.cell; threads = set s.threads i l.phase }

  -- The step of thread `i`, which is in the phase `p`.
  abbrev pub step : Bool → ℕ → Phase T R → Memory T R → Memory T R
  step spurious i p s =
      put_back i s (advance spurious (record { mark = s.mark; cell = s.cell; phase = p }))

  -- The calls that take effect in a step: a write, or a function that panics.
  abbrev pub panics : Op T R → Phase T R → List (Op T R × Answer T R)
  panics op (releasing answer) = (op, answer) ∷ []
  panics op p = []

  abbrev pub effect : Phase T R → List (Op T R × Answer T R)
  effect (writing op value answer) = (op, answer) ∷ []
  effect (working op first) = panics op (work op first)
  effect p = []

  -- Runs of the threads, with the calls that took effect, in order. Exchanges fail spuriously only
  -- when `weak` holds.
  pub data Run (weak : Bool) (s : Memory T R)
      : List (Op T R × Answer T R) → Memory T R → Type 0 where
    start : Run weak s [] s
    spawn :
        {log : List (Op T R × Answer T R)} {t : Memory T R}
        → (op : Op T R) → Run weak s log t
        → Run weak s log (record t { threads = t.threads ++ (starting op ∷ []) })
    acts :
        {log : List (Op T R × Answer T R)} {t : Memory T R}
        → (spurious : Bool) (i : ℕ) (p : Phase T R) → (spurious ≡ true → weak ≡ true)
        → get_elem? t.threads i ≡ some p
        → Run weak s log t
        → Run weak s (log ++ effect p) (step spurious i p t)
