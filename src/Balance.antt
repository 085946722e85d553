-- ===== src/Balance.antt =====
-- src/utils/load.rs: futures that share the time of a group. `Shared` is what the Rc of the group holds,
-- with its strong count. What the clock measures is a parameter, and so is the user's future, which in
-- a poll may use other members of the group.
pub mod Members
pub mod Sharing
pub mod Tests
use juggle.Prelude.{
  ℕ, zero, suc, ◌+◌, ◌-◌, Bool, true, false, Option, none, some, List, [], ◌∷◌, ◌==◌, length,
  if◌then◌else◌, Outcome, ok, panic, ◌>>=◌,
}
use juggle.Timing.{TimingGroup, new, count, can_execute, update_duration}
use juggle.Timing

pub record Shared (C : Type 0) : Type 0 where
  pub group : TimingGroup
  pub clock : C
  pub strong : ℕ

-- `record.index` and the future of a `LoadBalance`.
pub record LoadBalance (F : Type 0) : Type 0 where
  pub index : ℕ
  pub future : F

-- The result of a poll: put off, with the caller's waker woken, or what the future's poll returned
-- (`none` for pending).
pub data Turn (O : Type 0) : Type 0 where
  deferred : Turn O
  polled : Option O → Turn O

module _ {C : Type 0} (m : ℕ) where
  -- `do_unregister`.
  abbrev pub unregister : ℕ → Shared C → Outcome (Shared C)
  unregister index s = Timing.remove m index s.group >>= λ g. ok (record s { group = g })

module _ {F C : Type 0} (m : ℕ) where
  unfoldable pub with_clock : C → ℕ → F → Outcome (LoadBalance F × Shared C)
  with_clock clock prop future = Timing.insert m prop new >>= λ r.
      ok
        (record { index = r.0; future = future }, record { group = r.1; clock = clock; strong = 1 })

  unfoldable pub insert : ℕ → F → Shared C → Outcome (LoadBalance F × Shared C)
  insert prop future s = Timing.insert m prop s.group >>= λ r.
      ok (record { index = r.0; future = future }, record s { group = r.1; strong = s.strong + 1 })

  -- `remove`: the clock is given back when this was the last strong reference.
  unfoldable pub remove : LoadBalance F → Shared C → Outcome (Option C × Shared C)
  remove lb s = unregister m lb.index s >>= λ t.
      ok (if t.strong == 1 then some t.clock else none, record t { strong = t.strong - 1 })

  -- `poll`; `body` is the future's poll and `dur` what the clock measures for it.
  unfoldable pub poll :
      {O : Type 0}
      → ℕ
      → (F → Shared C → Outcome (Option O × F × Shared C))
      → ℕ
      → LoadBalance F
      → Shared C
      → Outcome (Turn O × LoadBalance F × Shared C)
  poll top body dur lb s = can_execute m top lb.index s.group >>= λ go.
      if go
      then (body lb.future s >>= λ r. update_duration m top lb.index dur r.2.group >>= λ g.
          ok (polled r.0, record lb { future = r.1 }, record r.2 { group = g }))
      else ok (deferred, lb, s)
