-- ===== src/Registry/Flags.antt =====
-- src/dy/registry.rs: the registry as a debug build compiles it, with the flags that count borrows and
-- iterators. A reference that `get` gives holds a borrow until it drops, and so does an iterator. The
-- closure of `retain` makes no calls on the registry. `m` is the greatest usize, `SENTINEL`.
use juggle.Prelude.{
  ℕ, ◌+◌, ◌-◌, Bool, not, ◌||◌, Option, none, some, List, ◌==◌, if◌then◌else◌, Outcome, ok, panic,
  ◌>>=◌, borrow_in_retain, iterate_in_retain, insert_in_retain, insert_in_iteration,
  remove_in_retain, remove_borrowed, retain_borrowed, subtract_overflow,
}
use juggle.Slab.{ChunkSlab}
use juggle.Slab
use juggle.Registry
use juggle.Registry.{usize_key}

-- `Registry`.
pub record Flagged (T : Type 0) : Type 0 where
  pub slab : ChunkSlab T
  pub borrow_flag : ℕ
  pub iterate_flag : ℕ

module _ {T : Type 0} where
  abbrev pub new : Flagged T
  new = record { slab = Slab.new; borrow_flag = 0; iterate_flag = 0 }

  -- Whether anything may be borrowed.
  abbrev pub in_use : Flagged T → Bool
  in_use g = not (g.borrow_flag == 0) || not (g.iterate_flag == 0)

  -- What `get` gives for the value of a key.
  abbrev pub lend : Option T → Flagged T → Option T × Flagged T
  lend none g = (none, g)
  lend (some task) g = (some task, record g { borrow_flag = g.borrow_flag + 1 })

  -- A flag is below the greatest usize when it is raised.
  unfoldable pub get : ℕ → ℕ → Flagged T → Outcome (Option T × Flagged T)
  get m key g =
      if g.borrow_flag == m then panic borrow_in_retain else ok (lend (Slab.get g.slab key) g)

  -- The drop of a `BorrowRef`.
  unfoldable pub drop_borrow : Flagged T → Outcome (Flagged T)
  drop_borrow g =
      if g.borrow_flag == 0
      then panic subtract_overflow
      else ok (record g { borrow_flag = g.borrow_flag - 1 })

  unfoldable pub iter : ℕ → Flagged T → Outcome (List (ℕ × T) × Flagged T)
  iter m g =
      if g.iterate_flag == m
      then panic iterate_in_retain
      else ok (Slab.iter (usize_key m) g.slab, record g { iterate_flag = g.iterate_flag + 1 })

  -- The drop of an iterator.
  unfoldable pub drop_iter : Flagged T → Outcome (Flagged T)
  drop_iter g =
      if g.iterate_flag == 0
      then panic subtract_overflow
      else ok (record g { iterate_flag = g.iterate_flag - 1 })

  unfoldable pub insert : ℕ → T → Flagged T → Outcome (Option ℕ × Flagged T)
  insert m val g =
      if g.iterate_flag == 0
      then (Registry.insert m val g.slab >>= λ r. ok (r.0, record g { slab = r.1 }))
      else panic (if g.iterate_flag == m then insert_in_retain else insert_in_iteration)

  unfoldable pub remove : ℕ → ℕ → Flagged T → Outcome (Option (Unit {0}) × Flagged T)
  remove m key g =
      if in_use g
      then panic (if g.borrow_flag == m then remove_in_retain else remove_borrowed)
      else (let r = Registry.remove key g.slab in ok (r.0, record g { slab = r.1 }))

  unfoldable pub guard_retain : ℕ → Flagged T → Outcome (Flagged T)
  guard_retain m g =
      if in_use g
      then panic retain_borrowed
      else ok (record g { borrow_flag = m; iterate_flag = m })

  -- The drop of the guard.
  abbrev pub drop_guard : Flagged T → Flagged T
  drop_guard g = record g { borrow_flag = 0; iterate_flag = 0 }

  unfoldable pub retain : ℕ → (ℕ → T → Bool) → Flagged T → Outcome (Flagged T)
  retain m func g = guard_retain m g >>= λ locked.
      ok (drop_guard (record locked { slab = Slab.retain (usize_key m) func locked.slab }))
