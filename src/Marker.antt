-- ===== src/Marker.antt =====
-- src/st/atomic_marker.rs: an optional value that threads put and take under a word of two bits. Each
-- step of a thread is one access of the word or of the value, in a sequentially consistent order. The
-- values that are dropped are collected in a list.
pub mod Moves
pub mod Exclusion
pub mod Notice
pub mod Tests
use juggle.Prelude.{
  ℕ, zero, suc, ◌≡◌, Bool, true, false, Option, none, some, List, [], ◌∷◌, ◌++◌, get_elem?, set,
}

-- The bits PUTTING and MARKING; HALTED is never set.
pub record Mark : Type 0 where
  pub putting : Bool
  pub marking : Bool

-- `Option<Result<T, &T>>`: nothing, an owned value, or one to clone.
pub data Given (T : Type 0) : Type 0 where
  nothing : Given T
  owned : T → Given T
  borrowed : T → Given T

pub data PutResult (T : Type 0) : Type 0 where
  taken_during_put : Option T → PutResult T
  success : PutResult T
  taken_before_put : Option T → PutResult T
  concurrent_put : Option T → PutResult T

pub data TakeResult (T : Type 0) : Type 0 where
  took : T → TakeResult T
  empty : TakeResult T
  concurrent_take : TakeResult T
  during_put : TakeResult T

-- Where a thread is: in `try_put` before the first exchange, before the write, before the release, and
-- after a failed release before the value is taken and before the `swap`; in `take` before `fetch_or`,
-- before the value is taken and before `fetch_and`; at an end, or at a failed `debug_assert!`.
pub data Phase (T : Type 0) : Type 0 where
  put_start : Given T → Phase T
  put_write : Given T → Phase T
  put_release : Phase T
  put_take : Phase T
  put_swap : Option T → Phase T
  take_start : Phase T
  take_value : Phase T
  take_release : Option T → Phase T
  put_end : PutResult T → Phase T
  take_end : TakeResult T → Phase T
  broken : Phase T

pub record Memory (T : Type 0) : Type 0 where
  pub mark : Mark
  pub value : Option T
  pub dropped : List T
  pub threads : List (Phase T)

-- What one thread sees and changes.
pub record Local (T : Type 0) : Type 0 where
  pub mark : Mark
  pub value : Option T
  pub dropped : List T
  pub phase : Phase T

abbrev pub idle : Mark
idle = record { putting = false; marking = false }

module _ {T : Type 0} where
  -- `value.and_then(|v| v.ok())`.
  abbrev pub give_back : Given T → Option T
  give_back nothing = none
  give_back (owned v) = some v
  give_back (borrowed v) = none

  -- `value.map(|v| v.unwrap_or_else(|v| v.clone()))`.
  abbrev pub stored : Given T → Option T
  stored nothing = none
  stored (owned v) = some v
  stored (borrowed v) = some v

  abbrev pub listed : Option T → List T
  listed none = []
  listed (some v) = v ∷ []

  -- `compare_exchange(IDLE, PUTTING)` and the match on the word before it.
  abbrev pub begin_put : Given T → Bool → Bool → Mark × Phase T
  begin_put v false false = (record { putting = true; marking = false }, put_write v)
  begin_put v false true =
      (record { putting = false; marking = true }, put_end (taken_before_put (give_back v)))
  begin_put v true marking =
      (record { putting = true; marking = marking }, put_end (concurrent_put (give_back v)))

  -- `compare_exchange(PUTTING, IDLE)`, with the assertion on the word when it fails.
  abbrev pub end_put : Bool → Bool → Mark × Phase T
  end_put true false = (idle, put_end success)
  end_put true true = (record { putting = true; marking = true }, put_take)
  end_put false marking = (record { putting = false; marking = marking }, broken)

  -- `fetch_or(MARKING)` and the match on the word before it.
  abbrev pub begin_take : Bool → Bool → Phase T
  begin_take false false = take_value
  begin_take false true = take_end concurrent_take
  begin_take true true = take_end concurrent_take
  begin_take true false = take_end during_put

  abbrev pub take_result : Option T → TakeResult T
  take_result none = empty
  take_result (some v) = took v

  unfoldable pub advance : Local T → Local T
  advance l = at l.phase
    where
      at : Phase T → Local T
      at (put_start v) =
          let r = begin_put v l.mark.putting l.mark.marking in record l { mark = r.0; phase = r.1 }
      at (put_write v) = record l {
        value = stored v;
        dropped = listed l.value ++ l.dropped;
        phase = put_release;
      }
      at put_release =
          let r = end_put l.mark.putting l.mark.marking in record l { mark = r.0; phase = r.1 }
      at put_take = record l { value = none; phase = put_swap l.value }
      at (put_swap v) = record l { mark = idle; phase = put_end (taken_during_put v) }
      at take_start = record l {
        mark = record { putting = l.mark.putting; marking = true };
        phase = begin_take l.mark.putting l.mark.marking;
      }
      at take_value = record l { value = none; phase = take_release l.value }
      at (take_release v) = record l {
        mark = record { putting = l.mark.putting; marking = false };
        phase = take_end (take_result v);
      }
      at (put_end r) = l
      at (take_end r) = l
      at broken = l

  abbrev pub new : Option T → Memory T
  new value = record { mark = idle; value = value; dropped = []; threads = [] }

  abbrev pub put_back : ℕ → Memory T → Local T → Memory T
  put_back i s l = record {
    mark = l.mark;
    value = l.value;
    dropped = l.dropped;
    threads = set s.threads i l.phase;
  }

  -- The step of thread `i`, which is in the phase `p`.
  abbrev pub step : ℕ → Phase T → Memory T → Memory T
  step i p s =
      put_back i s
        (advance (record { mark = s.mark; value = s.value; dropped = s.dropped; phase = p }))

  -- Runs of the threads; a new call is a new thread.
  pub data Run (s : Memory T) : Memory T → Type 0 where
    start : Run s s
    puts :
        {t : Memory T}
        → (v : Given T) → Run s t
        → Run s (record t { threads = t.threads ++ (put_start v ∷ []) })
    takes : {t : Memory T} → Run s t → Run s (record t { threads = t.threads ++ (take_start ∷ []) })
    acts :
        {t : Memory T}
        → (i : ℕ) (p : Phase T) → get_elem? t.threads i ≡ some p
        → Run s t
        → Run s (step i p t)
