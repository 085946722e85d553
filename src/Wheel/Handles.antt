-- ===== src/Wheel/Handles.antt =====
-- src/dy/handle.rs: the calls on a handle.
use Prim.Native.String.{String}
use juggle.Prelude.{
  ℕ, ◌+◌, ◌-◌, ◌<◌, ◌≤◌, ◌≡◌, ◌≢◌, refl, ap, ◌∙◌, subst, ◌⊎◌, inl, inr, true, false, Option, none,
  some, get_elem?, get_elem?-set, get_elem?-set_self, set-get_elem?, set, ltb, arith, Outcome, ok,
  panic, ◌>>=◌, add_overflow, ◌==◌, if◌then◌else◌, Bool-cases,
}
use juggle.Task.{TaskName, as_str, SpawnParams, State, DynamicFuture, new_future}
use juggle.TaskRegistry.{TaskRegistry, InsertPost, IsInserted}
use juggle.Scheduler.{Sched}
use juggle.Scheduler
use juggle.Wheel.{
  IdNum, from_usize, to_usize, Shared, Memory, WheelHandle, is_valid, unwrap_weak, map_id,
  spawn_dyn, get_name, get_state,
}

-- The keys below the greatest usize have identifiers, which are not 0 and give the keys back; the
-- greatest usize has none, and the conversion panics.
pub from_usize-to_usize :
    (m v : ℕ)
    → v ≤ m
    → ((id : IdNum) × (from_usize m v ≡ ok id) × (0 < id.number) × (to_usize id ≡ v) × (v < m))
      ⊎ ((v ≡ m) × (from_usize m v ≡ panic add_overflow))
unfolding from_usize
from_usize-to_usize m v le = elim (Bool-cases (ltb m (v + 1))) [
  | inl over ↦ inr (ground (arith, over), rw (over, from_usize) refl)
  | inr fits ↦ inl (
    record { number = v + 1 },
    rw (fits, from_usize) refl,
    omega arith,
    omega arith,
    ground (arith, fits),
  )
]

module _ {A B : Type 0} (handle : WheelHandle) (ret : B) (call : A → Outcome (B × A))
    (h : Memory A) where
  -- What comes of a call on the content of `cell`, the handle's.
  abbrev pub Answers : Shared A → Outcome (B × A) → Outcome (B × Memory A) → Type 0
  Answers cell (panic p) o = o ≡ panic p
  Answers cell (ok (b, alg)) o =
      (h' : Memory A) × (o ≡ ok (b, h'))
      × (get_elem? h' handle.ptr ≡ some (record { alg = alg; strong = cell.strong }))
      × ((j : ℕ) → j ≢ handle.ptr → get_elem? h' j ≡ get_elem? h j)

  abbrev pub Calls : Outcome (B × Memory A) → Type 0
  Calls o =
      ((is_valid handle h ≡ false) × (o ≡ ok (ret, h)))
      ⊎ ((is_valid handle h ≡ true)
          × (cell : Shared A) × (get_elem? h handle.ptr ≡ some cell)
          × Answers cell (call cell.alg) o)

  -- A call on a handle that is not valid gives the default and changes nothing; on a valid one it
  -- answers and changes the wheel of the handle as the scheduler's operation does, and no other wheel.
  unwrap_weak-Calls : Calls (unwrap_weak handle ret call h)
  unfolding unwrap_weak
  unwrap_weak-Calls = by_cell (get_elem? h handle.ptr) refl
    where
      answers :
          (cell : Shared A) (o : Outcome (B × A))
          → get_elem? h handle.ptr ≡ some cell
          → Answers cell o
              (o >>= λ r. ok (r.0, set h handle.ptr (record { alg = r.1; strong = cell.strong })))
      answers cell (panic p) at = refl
      answers cell (ok (b, alg)) at = (
        set h handle.ptr (record { alg = alg; strong = cell.strong }),
        refl,
        get_elem?-set_self h handle.ptr cell (record { alg = alg; strong = cell.strong }) at,
        λ j ne.
            ground (
              arith,
              ne,
              get_elem?-set h handle.ptr j (record { alg = alg; strong = cell.strong }),
            ),
      )

      by_cell :
          (o : Option (Shared A))
          → get_elem? h handle.ptr ≡ o
          → Calls (unwrap_weak handle ret call h)
      by_cell none q = inl (ground (arith, q), rw (q, unwrap_weak) refl)
      by_cell (some cell) q = elim (Bool-cases (cell.strong == 0)) [
        | inl gone ↦ inl (ground (arith, q, gone), rw (q, unwrap_weak) (rw gone refl))
        | inr lives ↦ inr (
          ground (arith, q, lives),
          cell,
          q,
          rw (q, unwrap_weak) (rw lives (answers cell (call cell.alg) q)),
        )
      ]

module _ {A : Type 0} (handle : WheelHandle) (h : Memory A) (cell : Shared A)
    (at : get_elem? h handle.ptr ≡ some cell) (alive : 0 < cell.strong) where
  unwrap_weak-does :
      {B : Type 0} (ret b : B) (alg : A) (call : A → Outcome (B × A))
      → call cell.alg ≡ ok (b, alg)
      → unwrap_weak handle ret call h
        ≡ ok (b, set h handle.ptr (record { alg = alg; strong = cell.strong }))
  unfolding unwrap_weak
  unwrap_weak-does ret b alg call e =
      let lives : (cell.strong == 0) ≡ false = ground arith in
      rw (at, unwrap_weak) (rw lives (rw e refl))

  -- A call that only reads leaves the memory.
  unwrap_weak-reads :
      {B : Type 0} (ret b : B) (call : A → Outcome (B × A))
      → call cell.alg ≡ ok (b, cell.alg)
      → unwrap_weak handle ret call h ≡ ok (b, h)
  unwrap_weak-reads ret b call e =
      unwrap_weak-does ret b cell.alg call e
      ∙ ap (λ l. ok (b, l)) (set-get_elem? h handle.ptr cell at)

abbrev pub first_state : SpawnParams → State
first_state params = if params.suspended then State.suspended else State.runnable

module _ {F : Type 0} (m : ℕ) (reg : TaskRegistry (DynamicFuture F)) where
  open reg use {R, get, insert, capacity}

  taken :
      (task : DynamicFuture F) (r r' : R) (key : ℕ)
      → reg.Inv r
      → insert task r ≡ ok (some key, r')
      → get r' key ≡ some task
  taken task r r' key inv e =
      by_post (subst (InsertPost get capacity reg.Inv task r) e (reg.insert_lem task r inv))
    where
      by_post : IsInserted get capacity task r key r' × reg.Inv r' → get r' key ≡ some task
      by_post (did, valid) = did.stored key ∙ ground arith

  -- The state of a wheel after `spawn_dyn` of a task that the registry took at `key`.
  abbrev spawned : SpawnParams → Sched R → R → Sched R
  spawned params s r' = record s {
    registry = r';
    suspended_count = if params.suspended then s.suspended_count + 1 else s.suspended_count;
    runnable = Scheduler.store_flag s.runnable s.next_flags true;
    next_flags = s.next_flags + 1;
  }

  spawn-taken :
      (future : F) (params : SpawnParams) (s : Sched R) (key : ℕ) (r' : R)
      → insert (new_future future s.next_flags params) s.registry ≡ ok (some key, r')
      → Scheduler.spawn reg future params s ≡ ok (some key, spawned params s r')
  unfolding Scheduler.spawn Scheduler.register
  spawn-taken future params s key r' e =
      rw (e, Scheduler.spawn, Scheduler.register)
        (elim (Bool-cases params.suspended) [ inl susp ↦ rw susp refl | inr runs ↦ rw runs refl ])

  -- On a valid handle of a wheel with a valid registry, which takes a new task at a key below the
  -- greatest usize, `spawn` returns an identifier; with it the handle then gives the task's name, and
  -- its state, suspended or runnable as the parameters say.
  pub spawn-get_name :
      (handle : WheelHandle) (params : SpawnParams) (future : F) (h : Memory (Sched R))
      (cell : Shared (Sched R)) (key : ℕ) (r' : R)
      → get_elem? h handle.ptr ≡ some cell
      → 0 < cell.strong
      → reg.Inv cell.alg.registry
      → insert (new_future future cell.alg.next_flags params) cell.alg.registry ≡ ok (some key, r')
      → key < m
      → (id : IdNum) × (h' : Memory (Sched R)) × (spawn_dyn m reg handle params future h
          ≡ ok (some id, h'))
        × (get_name m reg handle id h' ≡ ok (as_str params.name, h'))
        × (get_state m reg handle id h' ≡ ok (some (first_state params), h'))
  unfolding from_usize
  spawn-get_name handle params future h cell key r' at alive inv e small = (
    id,
    h',
    unwrap_weak-does handle h cell at alive none (some id) after _ (
        ap (λ o. o >>= λ r. map_id m reg r.0 >>= λ i. ok (i, r.1)) did
        ∙ ap (λ o. o >>= λ i. ok (i, after)) numbered),
    unwrap_weak-reads handle h' cell' at' alive none (as_str params.name) _
        (ap (λ o. ok (name_of o, after)) stored),
    unwrap_weak-reads handle h' cell' at' alive none (some (first_state params)) _ (
        ap (λ o. ok (some (known_state o), after)) stored ∙ ap (λ t. ok (some t, after)) state_lem),
  )
    where
      id : IdNum
      id = record { number = key + 1 }

      after : Sched R
      after = spawned params cell.alg r'

      cell' : Shared (Sched R)
      cell' = record { alg = after; strong = cell.strong }

      h' : Memory (Sched R)
      h' = set h handle.ptr cell'

      at' : get_elem? h' handle.ptr ≡ some cell'
      at' = get_elem?-set_self h handle.ptr cell cell' at

      did : Scheduler.spawn reg future params cell.alg ≡ ok (some key, after)
      did = spawn-taken future params cell.alg key r' e

      numbered : map_id m reg (some key) ≡ ok (some id)
      numbered = let fits : ltb m (key + 1) ≡ false = ground arith in rw (fits, from_usize) refl

      stored :
          get after.registry (to_usize id) ≡ some (new_future future cell.alg.next_flags params)
      stored =
          let back : key + 1 - 1 ≡ key = omega arith in
          ap (get r') back ∙ taken (new_future future cell.alg.next_flags params) _ r' key inv e

      name_of : Option (DynamicFuture F) → Option String
      name_of o = elim o [ none ↦ as_str TaskName.none | some task ↦ as_str task.name ]

      known_state : Option (DynamicFuture F) → State
      known_state o = elim o [
        | none ↦ State.inactive
        | some task ↦ Scheduler.task_state task.stop_reason (after.runnable task.flags)
      ]

      state_lem :
          known_state (some (new_future future cell.alg.next_flags params)) ≡ first_state params
      state_lem = ground arith
