-- ===== src/Wakers.antt =====
-- src/utils/mod.rs: wakers over reference counted allocations, over static references and over
-- function pointers, and `AtomicWakerRegistry`. An allocation is a place of the list of strong counts
-- and is freed when its count falls to 0; what its `wake` does is the user's, and is only recorded.
-- The exchanges of `AtomicWakerRegistry` are taken as one step, as AtomicCell.antt shows them to be.
pub mod Counts
pub mod Owned
pub mod Total
pub mod Tests
use juggle.Prelude.{
  ℕ, zero, suc, ◌+◌, Bool, true, false, Option, none, some, List, [], ◌∷◌, ◌++◌, length, get_elem?,
  set, without_at, if◌then◌else◌, Outcome, ok, panic, ◌>>=◌, dangling_pointer,
}

-- Wakers that own nothing: `noop_waker`, `func_waker` and `to_static_waker`.
pub data Unowned : Type 0 where
  noop : Unowned
  func : ℕ → Unowned
  static_ref : ℕ → Unowned

pub data Waker : Type 0 where
  unowned : Unowned → Waker
  dynamic : ℕ → Waker

-- `woken` are the wakers whose action ran, the last one first.
pub record Memory : Type 0 where
  pub strong : List ℕ
  pub freed : List ℕ
  pub woken : List Waker

-- The strong count of a living allocation.
abbrev pub alive : {A : Type 0} → Option ℕ → (ℕ → Outcome A) → Outcome A
alive none f = panic dangling_pointer
alive (some zero) f = panic dangling_pointer
alive (some (suc n)) f = f n

-- `Arc::clone` and the drop of an `Arc`.
unfoldable pub clone_arc : ℕ → Memory → Outcome Memory
clone_arc a h =
    alive (get_elem? h.strong a) (λ n. ok (record h { strong = set h.strong a (suc (suc n)) }))

abbrev pub free : ℕ → ℕ → List ℕ → List ℕ
free zero a freed = a ∷ freed
free (suc n) a freed = freed

unfoldable pub drop_arc : ℕ → Memory → Outcome Memory
drop_arc a h =
    alive (get_elem? h.strong a)
      (λ n. ok (record h { strong = set h.strong a n; freed = free n a h.freed }))

abbrev pub new_arc : Memory → ℕ × Memory
new_arc h = (length h.strong, record h { strong = h.strong ++ 1 ∷ [] })

-- The entries of the tables of the wakers. Those of a dynamic waker read the allocation.
abbrev pub log : Waker → Memory → Memory
log w h = record h { woken = w ∷ h.woken }

unfoldable pub waker_clone : Waker → Memory → Outcome (Waker × Memory)
waker_clone (unowned k) h = ok (unowned k, h)
waker_clone (dynamic a) h = clone_arc a h >>= λ h'. ok (dynamic a, h')

unfoldable pub waker_wake_by_ref : Waker → Memory → Outcome Memory
waker_wake_by_ref (unowned noop) h = ok h
waker_wake_by_ref (unowned k) h = ok (log (unowned k) h)
waker_wake_by_ref (dynamic a) h = alive (get_elem? h.strong a) (λ n. ok (log (dynamic a) h))

unfoldable pub waker_drop : Waker → Memory → Outcome Memory
waker_drop (unowned k) h = ok h
waker_drop (dynamic a) h = drop_arc a h

-- The `Arc` that `waker_wake` takes back drops after the action.
unfoldable pub waker_wake : Waker → Memory → Outcome Memory
waker_wake w h = waker_wake_by_ref w h >>= λ h'. waker_drop w h'

abbrev pub pointer_as_dynamic_waker : ℕ → Waker
pointer_as_dynamic_waker a = dynamic a

-- `func_waker`, where `wide` says that a function pointer is longer than a data pointer.
abbrev pub func_waker : Bool → ℕ → Memory → Waker × Memory
func_waker wide f h =
    let r = new_arc h in
    if◌then◌else◌ {A = Waker × Memory} wide (pointer_as_dynamic_waker r.0, r.1)
      (unowned (func f), h)

-- Who owns what: the `Arc`s and the wakers that the program holds, and the cell of the registry.
pub record Owners : Type 0 where
  pub memory : Memory
  pub arcs : List ℕ
  pub wakers : List Waker
  pub inner : Option Waker

abbrev pub drop_old : Option Waker → Memory → Outcome Memory
drop_old none h = ok h
drop_old (some w) h = waker_drop w h

-- `register`, `clear` and `notify_wake` of `AtomicWakerRegistry`, with their answers.
unfoldable pub register : Waker → Owners → Outcome (Bool × Owners)
register waker s = waker_clone waker s.memory >>= λ c. drop_old s.inner c.1 >>= λ h.
    ok (elim s.inner [ none ↦ true | some w ↦ false ], record s { memory = h; inner = some c.0 })

unfoldable pub clear : Owners → Outcome (Bool × Owners)
clear s = drop_old s.inner s.memory >>= λ h.
    ok (elim s.inner [ none ↦ false | some w ↦ true ], record s { memory = h; inner = none })

abbrev pub notify : Option Waker → Owners → Outcome (Bool × Owners)
notify none s = ok (false, s)
notify (some w) s = waker_wake w s.memory >>= λ h. ok (true, record s { memory = h; inner = none })

unfoldable pub notify_wake : Owners → Outcome (Bool × Owners)
notify_wake s = notify s.inner s

-- What a program does with what it owns, by places of its lists.
pub data Op : Type 0 where
  make_arc : Op
  share_arc : ℕ → Op
  give_up_arc : ℕ → Op
  to_waker : ℕ → Op
  borrowed_clone : ℕ → Op
  borrowed_wake : ℕ → Op
  make_func : Bool → ℕ → Op
  make_unowned : Unowned → Op
  clone : ℕ → Op
  wake : ℕ → Op
  wake_by_ref : ℕ → Op
  drop : ℕ → Op
  registers : ℕ → Op
  clears : Op
  notifies : Op

-- A call on what stands at a place, if anything does.
abbrev pub at_place : {A : Type 0} → Option A → Owners → (A → Outcome Owners) → Outcome Owners
at_place none s f = ok s
at_place (some a) s f = f a

abbrev pub add_waker : Waker × Memory → Owners → Owners
add_waker r s = record s { memory = r.1; wakers = r.0 ∷ s.wakers }

abbrev pub on_memory : Owners → Outcome Memory → Outcome Owners
on_memory s o = o >>= λ h. ok (record s { memory = h })

-- A place that is out of range is no call. A `BorrowedWaker` borrows an `Arc` and does not drop.
unfoldable pub step : Op → Owners → Outcome Owners
step make_arc s = let r = new_arc s.memory in ok (record s { memory = r.1; arcs = r.0 ∷ s.arcs })
step (share_arc i) s =
    at_place (get_elem? s.arcs i) s
      (λ a. clone_arc a s.memory >>= λ h. ok (record s { memory = h; arcs = a ∷ s.arcs }))
step (give_up_arc i) s =
    at_place (get_elem? s.arcs i) s
      (λ a. drop_arc a s.memory >>= λ h. ok (record s { memory = h; arcs = without_at i s.arcs }))
step (to_waker i) s = at_place (get_elem? s.arcs i) s (λ a.
    ok (record s { arcs = without_at i s.arcs; wakers = pointer_as_dynamic_waker a ∷ s.wakers }))
step (borrowed_clone i) s =
    at_place (get_elem? s.arcs i) s
      (λ a. waker_clone (pointer_as_dynamic_waker a) s.memory >>= λ r. ok (add_waker r s))
step (borrowed_wake i) s =
    at_place (get_elem? s.arcs i) s
      (λ a. on_memory s (waker_wake_by_ref (pointer_as_dynamic_waker a) s.memory))
step (make_func wide f) s = ok (add_waker (func_waker wide f s.memory) s)
step (make_unowned k) s = ok (add_waker (unowned k, s.memory) s)
step (clone i) s =
    at_place (get_elem? s.wakers i) s (λ w. waker_clone w s.memory >>= λ r. ok (add_waker r s))
step (wake i) s =
    at_place (get_elem? s.wakers i) s
      (λ w. on_memory (record s { wakers = without_at i s.wakers }) (waker_wake w s.memory))
step (wake_by_ref i) s =
    at_place (get_elem? s.wakers i) s (λ w. on_memory s (waker_wake_by_ref w s.memory))
step (drop i) s =
    at_place (get_elem? s.wakers i) s
      (λ w. on_memory (record s { wakers = without_at i s.wakers }) (waker_drop w s.memory))
step (registers i) s = at_place (get_elem? s.wakers i) s (λ w. register w s >>= λ r. ok r.1)
step clears s = clear s >>= λ r. ok r.1
step notifies s = notify_wake s >>= λ r. ok r.1

unfoldable pub run : List Op → Owners → Outcome Owners
run [] s = ok s
run (op ∷ ops) s = step op s >>= λ t. run ops t

abbrev pub nothing : Owners
nothing = record {
  memory = record { strong = []; freed = []; woken = [] };
  arcs = [];
  wakers = [];
  inner = none;
}
