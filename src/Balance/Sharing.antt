-- ===== src/Balance/Sharing.antt =====
-- src/utils/load.rs: joining a group, leaving it and polling in it, for all members that there are.
use juggle.Prelude.{
  ℕ, ◌+◌, ◌-◌, ◌%◌, ◌*◌, ◌<◌, ◌≤◌, ◌≡◌, refl, sym, ap, ◌∙◌, inl, inr, true, false, Option, none,
  some, List, [], ◌∷◌, length, ◌==◌, if◌then◌else◌, arith, Outcome, ok, is_some, Bool-cases,
}
use juggle.Slab.{chunk_size}
use juggle.Slab
use juggle.Timing.{TimeEntry, TimingGroup, can_execute, update_duration}
use juggle.Timing
use juggle.Timing.Fair.{At, Allowed, can_execute-Allowed}
use juggle.Timing.Steps.{
  new-IsGroup, insert-Inserted, remove-Removed, Updated, update_duration-Updated,
}
use juggle.Balance.{Shared, LoadBalance, deferred, polled, with_clock, insert, remove, poll}
use juggle.Balance.Members.{
  member, without, member-Absent, without-length, member-without, Distinct-without, Owned,
}

module _ {C : Type 0} (m : ℕ) where
  found :
      (key : ℕ) (live : List ℕ) (s : Shared C)
      → Owned m live s
      → member key live ≡ true
      → (e : TimeEntry) × At s.group key e
  found key live s own mem = by_entry (Slab.get s.group.info key) refl
    where
      by_entry :
          (o : Option TimeEntry)
          → Slab.get s.group.info key ≡ o
          → (e : TimeEntry) × At s.group key e
      by_entry none q = absurd (cc (sym (ap is_some q) ∙ own.owns key ∙ mem))
      by_entry (some e) q = (e, q)

module _ {F C : Type 0} (m : ℕ) where
  -- A future with slots joins a group that has a free key: it gets an index that no member has, and
  -- the members are the old ones and the new one.
  pub insert-Owned :
      (prop : ℕ) (future : F) (live : List ℕ) (s : Shared C)
      → (m + 1) % chunk_size ≡ 0
      → 0 < prop
      → s.group.info.len ≤ m
      → Owned m live s
      → (lb : LoadBalance F) × (s' : Shared C) × (insert m prop future s ≡ ok (lb, s'))
        × (member lb.index live ≡ false)
        × Owned m (lb.index ∷ live) s'
        × (s'.clock ≡ s.clock)
  unfolding insert
  insert-Owned prop future live s whole pos room own =
      let (key, g', e, did) = insert-Inserted m prop s.group whole pos own.valid room in
      let fresh : member key live ≡ false = sym (own.owns key) ∙ ap is_some did.absent in
      (
        record { index = key; future = future },
        record s { group = g'; strong = s.strong + 1 },
        rw e refl,
        fresh,
        record {
          valid = did.kept;
          distinct = (member-Absent key live fresh, own.distinct);
          owns = λ j. ground (arith, did.stored j, own.owns j);
          counted = omega (arith, did.grown, own.counted);
          shared = omega (arith, own.shared);
        },
        refl,
      )

  -- A future with slots starts a group of which it is the only member.
  pub with_clock-Owned :
      (clock : C) (prop : ℕ) (future : F)
      → (m + 1) % chunk_size ≡ 0
      → 0 < prop
      → (lb : LoadBalance F) × (s : Shared C) × (with_clock m clock prop future ≡ ok (lb, s))
        × Owned m (lb.index ∷ []) s
        × (s.clock ≡ clock)
  unfolding with_clock
  with_clock-Owned clock prop future whole pos =
      let (key, g', e, did) =
        insert-Inserted m prop Timing.new whole pos (new-IsGroup m) (omega arith) in
      (
        record { index = key; future = future },
        record { group = g'; clock = clock; strong = 1 },
        rw e refl,
        record {
          valid = did.kept;
          distinct = (tt, tt);
          owns = λ j. ground (arith, did.stored j);
          counted = did.grown;
          shared = refl;
        },
        refl,
      )

  -- A member leaves its group: the other members stay, and the clock is given back exactly when it
  -- was the only one.
  remove-Owned :
      (lb : LoadBalance F) (live : List ℕ) (s : Shared C)
      → Owned m live s
      → member lb.index live ≡ true
      → (s' : Shared C) × (remove m lb s ≡ ok (if length live == 1 then some s.clock else none, s'))
        × Owned m (without lb.index live) s'
  unfolding remove
  remove-Owned lb live s own mem =
      let (e, at) = found m lb.index live s own mem in
      let (g', q, did) = remove-Removed m lb.index e s.group own.valid at in
      let less = without-length lb.index live mem in
      (
        record s { group = g'; strong = s.strong - 1 },
        rw q (rw own.shared refl),
        record {
          valid = did.kept;
          distinct = Distinct-without lb.index live own.distinct;
          owns = λ j.
              ground (arith, did.stored j, own.owns j, member-without lb.index j live own.distinct);
          counted = omega (arith, did.shrunk, own.counted, less);
          shared = omega (arith, own.shared, less);
        },
      )

module _ {F C O : Type 0} (m top : ℕ)
    (body : F → Shared C → Outcome (Option O × F × Shared C)) where
  -- What a poll of a member did, for the duration `dur` that the clock measured.
  pub data Polled (dur : ℕ) (lb : LoadBalance F) (s : Shared C) (e : TimeEntry) : Type 0 where
    put_off :
        ¬ Allowed s.group e → poll m top body dur lb s ≡ ok (deferred, lb, s) → Polled dur lb s e
    ran :
        {r : Option O} {future : F} {t : Shared C} {e' : TimeEntry} {g : Timing.TimingGroup}
        {live : List ℕ}
        → Allowed s.group e
        → body lb.future s ≡ ok (r, future, t)
        → At t.group lb.index e'
        → Updated m lb.index dur e' t.group g
        → poll m top body dur lb s
          ≡ ok (polled r, record lb { future = future }, record t { group = g })
        → Owned m live (record t { group = g })
        → member lb.index live ≡ true
        → Polled dur lb s e

  -- A future's poll returns, and leaves a group of which `lb` is still a member, with this entry.
  pub record Returns (lb : LoadBalance F) (s : Shared C) : Type 0 where
    pub result : Option O
    pub future : F
    pub after : Shared C
    pub live : List ℕ
    pub entry : TimeEntry
    pub runs : body lb.future s ≡ ok (result, future, after)
    pub own : Owned m live after
    pub stays : member lb.index live ≡ true
    pub at : At after.group lb.index entry

  -- A poll of a member, in a group whose greatest share can be multiplied by 9, with a future whose
  -- poll returns and leaves an entry to whose sum the duration can be added without overflow: it is
  -- put off, with nothing changed, when the entry is not allowed to run; otherwise the future is
  -- polled once and the duration is added to the entry alone, and the group's members are those that
  -- the future's poll left. Under these conditions it does not panic.
  pub poll-Polled :
      (dur : ℕ) (lb : LoadBalance F) (live : List ℕ) (s : Shared C)
      → Owned m live s
      → member lb.index live ≡ true
      → s.group.max * 9 ≤ top
      → (will : Returns lb s) → will.entry.sum + dur ≤ top
      → (e : TimeEntry) × At s.group lb.index e × Polled dur lb s e
  unfolding poll
  poll-Polled dur lb live s own mem small will room =
      let (e, at) = found m lb.index live s own mem in
      let (b, q, iff) = can_execute-Allowed m top s.group own.valid small lb.index e at in
      let (g, u, did) =
        update_duration-Updated m top lb.index dur will.entry will.after.group will.own.valid
          will.at room in
      (
        e,
        at,
        elim (Bool-cases b) [
          | inl granted ↦
              ran (iff.0 granted) will.runs will.at did (rw (q, granted) (rw will.runs (rw u refl)))
                (record {
                  valid = did.kept;
                  distinct = will.own.distinct;
                  owns = λ j. ground (arith, did.stored j, will.own.owns j, will.at);
                  counted = did.same_len ∙ will.own.counted;
                  shared = will.own.shared;
                })
                will.stays
          | inr refused ↦ put_off (λ a. cc (refused, iff.1 a)) (rw (q, refused) refl)
        ],
      )
