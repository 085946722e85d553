-- ===== src/Balance/Tests.antt =====
-- src/utils/timing.rs and src/utils/load.rs: a group of two futures, with the theorems on it.
use juggle.Prelude.{
  ℕ, ◌+◌, ◌-◌, ◌^◌, ◌*◌, ◌≤◌, ◌≡◌, refl, sym, subst, true, false, Option, none, [], ◌∷◌, arith,
  Outcome, ok, panic, ◌>>=◌,
}
use juggle.Slab
use juggle.Slab.{init_chunk}
use juggle.Timing.{
  TimeEntry, TimingGroup, new, can_execute, can_execute_entry, update_duration, update_entry,
  differs, min_share,
}
use juggle.Timing
use juggle.Timing.Fair.{At, Decides, can_execute-Allowed, can_execute-least}
use juggle.Balance.{Shared, LoadBalance, with_clock, insert}
use juggle.Balance.Members.{member, Owned}
use juggle.Balance.Sharing.{Polled, Returns, insert-Owned, with_clock-Owned, poll-Polled}

abbrev usize_max : ℕ
usize_max = 2 ^ 64 - 1

abbrev or_empty : Outcome (LoadBalance ℕ × Shared ℕ) → LoadBalance ℕ × Shared ℕ
or_empty (ok r) = r
or_empty (panic p) =
    (record { index = 0; future = 0 }, record { group = new; clock = 0; strong = 0 })

-- Two futures, with one and two slots; the clock is a number.
abbrev single : LoadBalance ℕ × Shared ℕ
single = or_empty (with_clock usize_max 7 1 10)

abbrev double : LoadBalance ℕ × Shared ℕ
double = or_empty (insert usize_max 2 20 single.1)

double_indices : (single.0.index ≡ 0) × (double.0.index ≡ 1) × (double.1.strong ≡ 2)
unfolding with_clock insert Timing.insert Slab.insert init_chunk
double_indices = (refl, refl, refl)

-- The future counts its polls and is pending.
abbrev body : ℕ → Shared ℕ → Outcome (Option ℕ × ℕ × Shared ℕ)
body n s = ok (none, n + 1, s)

single-Owned : Owned usize_max (0 ∷ []) single.1
unfolding with_clock Timing.insert Slab.insert init_chunk
single-Owned =
    let (lb, s, e, own, q) = with_clock-Owned usize_max 7 1 10 refl (omega arith) in
    subst (λ r. Owned usize_max ((or_empty r).0.index ∷ []) (or_empty r).1) (sym e) own

double-Owned : Owned usize_max (1 ∷ 0 ∷ []) double.1
unfolding with_clock insert Timing.insert Slab.insert init_chunk
double-Owned =
    let (lb, s, e, fresh, own, q) =
      insert-Owned usize_max 2 20 (0 ∷ []) single.1 refl (omega arith) (omega arith) single-Owned in
    subst (λ r. Owned usize_max ((or_empty r).0.index ∷ 0 ∷ []) (or_empty r).1) (sym e) own

insert-Owned_example :
    (lb : LoadBalance ℕ) × (s' : Shared ℕ) × (insert usize_max 2 20 single.1 ≡ ok (lb, s'))
    × (member lb.index (0 ∷ []) ≡ false)
    × Owned usize_max (lb.index ∷ 0 ∷ []) s'
    × (s'.clock ≡ 7)
unfolding with_clock Timing.insert Slab.insert init_chunk
insert-Owned_example =
    insert-Owned usize_max 2 20 (0 ∷ []) single.1 refl (omega arith) (omega arith) single-Owned

fresh_at : At double.1.group 0 (record { sum = 0; proportion = 1 })
unfolding with_clock insert Timing.insert Slab.insert init_chunk
fresh_at = refl

unused : double.1.group.max ≡ 0
unfolding with_clock insert Timing.insert Slab.insert init_chunk
unused = refl

abbrev small : double.1.group.max * 9 ≤ 255
small = omega (arith, unused)

can_execute-Allowed_example :
    Decides usize_max 255 double.1.group double-Owned.valid small 0
      (record { sum = 0; proportion = 1 })
      fresh_at
      (can_execute usize_max 255 0 double.1.group)
can_execute-Allowed_example =
    can_execute-Allowed usize_max 255 double.1.group double-Owned.valid small 0
      (record { sum = 0; proportion = 1 }) fresh_at

can_execute-least_example :
    (k : ℕ) × (d : TimeEntry) × At double.1.group k d
    × (can_execute usize_max 255 k double.1.group ≡ ok true)
can_execute-least_example =
    can_execute-least usize_max 255 double.1.group double-Owned.valid small 0
      (record { sum = 0; proportion = 1 }) fresh_at

double-Returns : Returns usize_max 255 body single.0 double.1
unfolding with_clock insert Timing.insert Slab.insert init_chunk
double-Returns = record {
  result = none;
  future = 11;
  after = double.1;
  live = 1 ∷ 0 ∷ [];
  entry = record { sum = 0; proportion = 1 };
  runs = refl;
  own = double-Owned;
  stays = refl;
  at = refl;
}

single_member : member single.0.index (1 ∷ 0 ∷ []) ≡ true
unfolding with_clock Timing.insert Slab.insert init_chunk
single_member = refl

poll-Polled_example :
    (e : TimeEntry) × At double.1.group single.0.index e
    × Polled usize_max 255 body 30 single.0 double.1 e
unfolding double-Returns
poll-Polled_example =
    poll-Polled usize_max 255 body 30 single.0 (1 ∷ 0 ∷ []) double.1 double-Owned single_member
      small double-Returns (omega arith)

-- The first future uses 20 and is put off; the second may run, and once it has used 60 for its two
-- slots, the first may run again.
abbrev used : ℕ → ℕ → TimingGroup → Outcome TimingGroup
used key dur g = update_duration usize_max 1000 key dur g

turns :
    ((used 0 20 double.1.group >>= λ g. can_execute usize_max 1000 0 g) ≡ ok false)
    × ((used 0 20 double.1.group >>= λ g. can_execute usize_max 1000 1 g) ≡ ok true)
    × ((used 0 20 double.1.group >>= λ g. used 1 60 g >>= λ g. can_execute usize_max 1000 0 g)
        ≡ ok true)
unfolding with_clock insert Timing.insert Slab.insert init_chunk update_duration update_entry
    can_execute can_execute_entry differs min_share Slab.iter
turns = (refl, refl, refl)
