-- ===== src/Static/Still.antt =====
-- src/st/algorithm.rs: wheels in which no task is being polled or can be polled.
use juggle.Prelude.{
  ℕ, zero, suc, ◌+◌, ◌≡◌, refl, ◌∙◌, false, Option, none, some, List, get_elem?, length, arith,
}
use juggle.StaticTask.{StopReason, StaticFuture}
use juggle.Static.{StaticAlgorithm}
use juggle.Static.Rest.{Rests}

-- 1 for a cancelled task.
abbrev pub off_reason : StopReason → ℕ
off_reason StopReason.cancelled = 1
off_reason _ = 0

abbrev pub off : {F : Type 0} → Option (StaticFuture F) → ℕ
off none = 0
off (some task) = off_reason task.stop_reason

-- A task that is not being polled and that no beat polls.
abbrev pub Still : {F : Type 0} → Option (StaticFuture F) → Type 0
Still none = Unit {0}
Still (some task) = (task.polling ≡ false) × Rests (some task)

module _ {F : Type 0} where
  abbrev pub IsStill : StaticAlgorithm F → Type 0
  IsStill s = (j : ℕ) → Still (get_elem? s.registry j)

  -- The cancelled tasks at `left` keys from `key` on.
  abbrev pub off_from : ℕ → ℕ → List (StaticFuture F) → ℕ
  off_from zero key ts = 0
  off_from (suc left) key ts = off (get_elem? ts key) + off_from left (suc key) ts

  abbrev pub cancelled_count : StaticAlgorithm F → ℕ
  cancelled_count s = off_from (length s.registry) 0 s.registry

  -- A step that changes nothing but the memory of cancelled tasks and the count of unfinished ones.
  pub record SameTasks (s t : StaticAlgorithm F) : Type 0 where
    pub still : IsStill t
    pub same_off : (j : ℕ) → off (get_elem? t.registry j) ≡ off (get_elem? s.registry j)
    pub same_length : length t.registry ≡ length s.registry
    pub same_suspended : t.suspended_count ≡ s.suspended_count

  pub off_from-same :
      (left key : ℕ) (ts us : List (StaticFuture F))
      → ((j : ℕ) → off (get_elem? us j) ≡ off (get_elem? ts j))
      → off_from left key us ≡ off_from left key ts
  off_from-same zero key ts us same = refl
  off_from-same (suc left) key ts us same =
      omega (arith, same key, off_from-same left (suc key) ts us same)

  pub SameTasks-frame :
      (s t s' t' : StaticAlgorithm F)
      → s'.registry ≡ s.registry
      → s'.suspended_count ≡ s.suspended_count
      → t'.registry ≡ t.registry
      → t'.suspended_count ≡ t.suspended_count
      → SameTasks s t
      → SameTasks s' t'
  SameTasks-frame s t s' t' r n r' n' same = record {
    still = rw r' same.still;
    same_off = rw (r, r') same.same_off;
    same_length = rw (r, r') same.same_length;
    same_suspended = rw (n, n') same.same_suspended;
  }

  pub SameTasks-trans : {s t u : StaticAlgorithm F} → SameTasks s t → SameTasks t u → SameTasks s u
  SameTasks-trans a b = record {
    still = b.still;
    same_off = λ j. b.same_off j ∙ a.same_off j;
    same_length = b.same_length ∙ a.same_length;
    same_suspended = b.same_suspended ∙ a.same_suspended;
  }
