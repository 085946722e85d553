-- ===== src/Queued/Sweep.antt =====
-- src/dy/algorithm.rs: the closure of `drain_runnable` on registered keys, key by key.
use juggle.Prelude.{
  ℕ, ◌≡◌, refl, sym, ap, ◌∙◌, Bool, true, false, not, ◌&&◌, Bool-cases, Option-cases, inl, inr,
  Option, none, some, List, [], ◌∷◌, ◌++◌, ok, if◌then◌else◌, is_some, arith, snoc-append, subst,
  ℕ_discrete,
}
use mathlib.Core.List.{append-nil}
use juggle.Task.{StopReason, DynamicFuture}
use juggle.TaskRegistry.{TaskRegistry}
use juggle.Queued.{contains, is_cancelled, push_back}
use juggle.Queued.Beat.{Drained, drain_elem, drain}

abbrev pub filter : (ℕ → Bool) → List ℕ → List ℕ
filter test [] = []
filter test (key ∷ keys) = if test key then key ∷ filter test keys else filter test keys

-- The keys are registered, and none stands twice.
abbrev pub AllDistinct : List ℕ → Type 0
AllDistinct [] = Unit {0}
AllDistinct (key ∷ keys) = (contains key keys ≡ false) × AllDistinct keys

module _ {F : Type 0} (reg : TaskRegistry (DynamicFuture F)) where
  open reg use {R, get, remove, capacity}

  abbrev pub AllIn : R → List ℕ → Type 0
  AllIn r [] = Unit {0}
  AllIn r (key ∷ keys) = (is_some (get r key) ≡ true) × AllIn r keys

  -- What the stop reason and the flag of a registered task say.
  abbrev stays_task : Bool → StopReason → Bool
  stays_task runs StopReason.none = not runs
  stays_task runs _ = false

  abbrev runs_task : Bool → StopReason → Bool
  runs_task runs StopReason.none = runs
  runs_task runs _ = false

  abbrev stays_of : (ℕ → Bool) → Option (DynamicFuture F) → Bool
  stays_of flags none = false
  stays_of flags (some task) = stays_task (flags task.flags) task.stop_reason

  abbrev runs_of : (ℕ → Bool) → Option (DynamicFuture F) → Bool
  runs_of flags none = false
  runs_of flags (some task) = runs_task (flags task.flags) task.stop_reason

  abbrev pub stays : (ℕ → Bool) → R → ℕ → Bool
  stays flags r key = stays_of flags (get r key)

  abbrev pub runs : (ℕ → Bool) → R → ℕ → Bool
  runs flags r key = runs_of flags (get r key)

  abbrev pub ends : R → ℕ → Bool
  ends r key = elim (get r key) [ none ↦ false | some task ↦ is_cancelled task.stop_reason ]

  -- The registry `r'` is `r` without the cancelled tasks of the keys.
  pub record IsSwept (keys : List ℕ) (r r' : R) : Type 0 where
    pub others : (j : ℕ) → get r' j ≡ (if contains j keys && ends r j then none else get r j)
    pub same_capacity : capacity r' ≡ capacity r
    pub kept : reg.Inv r'

  module _ (flags : ℕ → Bool) where
    -- One element, whose task is registered.
    record IsVisited (elem : ℕ) (to : List ℕ) (r : R) (d : Drained reg) : Type 0 where
      stayed : d.0 ≡ stays flags r elem
      moved : (ys : List ℕ) → d.1 ++ ys ≡ to ++ (if runs flags r elem then elem ∷ ys else ys)
      swept : IsSwept (elem ∷ []) r d.2

    drain_elem-IsVisited :
        (elem : ℕ) (to : List ℕ) (r : R)
        → reg.Inv r
        → is_some (get r elem) ≡ true
        → (d : Drained reg) × (drain_elem reg flags elem to r ≡ ok d) × IsVisited elem to r d
    drain_elem-IsVisited elem to r inv there = elim (Option-cases (get r elem)) [
      | inl e ↦ absurd (ground (arith, e, there))
      | inr (task, e) ↦ by_reason task e task.stop_reason refl
    ]
      where
        same : ends r elem ≡ false → IsSwept (elem ∷ []) r r
        same not_ended = record {
          others = λ j. elim (ℕ_discrete elem j) [
            | yes at ↦
                let there : ends r j ≡ false = subst (λ k. ends r k ≡ false) at not_ended in
                ground (arith, there)
            | no away ↦ ground (arith, away)
          ];
          same_capacity = refl;
          kept = inv;
        }

        swept :
            (task : DynamicFuture F)
            → get r elem ≡ some task
            → task.stop_reason ≡ StopReason.cancelled
            → IsSwept (elem ∷ []) r (remove elem r).1
        swept task e was = record {
          others = λ j. ground (arith, e, was, reg.get-remove elem r j inv);
          same_capacity = reg.capacity-remove elem r inv;
          kept = reg.remove-Inv elem r inv;
        }

        by_reason :
            (task : DynamicFuture F)
            → get r elem ≡ some task
            → (o : StopReason) → task.stop_reason ≡ o
            → (d : Drained reg) × (drain_elem reg flags elem to r ≡ ok d) × IsVisited elem to r d
        by_reason task e StopReason.suspended was = (
          (false, to, r),
          rw (e, drain_elem) (rw was refl),
          record {
            stayed = ground (arith, e, was);
            moved = λ ys. ground (arith, e, was);
            swept = same (ground (arith, e, was));
          },
        )
        by_reason task e StopReason.none was = elim (Bool-cases (flags task.flags)) [
          | inl on ↦ (
            (false, push_back elem to, r),
            rw (e, drain_elem) (rw was (rw on refl)),
            record {
              stayed = ground (arith, e, was, on);
              moved = λ ys. snoc-append to elem ys ∙ ground (arith, e, was, on);
              swept = same (ground (arith, e, was));
            },
          )
          | inr off ↦ (
            (true, to, r),
            rw (e, drain_elem) (rw was (rw off refl)),
            record {
              stayed = ground (arith, e, was, off);
              moved = λ ys. ground (arith, e, was, off);
              swept = same (ground (arith, e, was));
            },
          )
        ]
        by_reason task e StopReason.cancelled was =
            let did : is_some (remove elem r).0 ≡ true =
              ground (arith, reg.remove-present elem r inv, e) in
            (
              (false, to, (remove elem r).1),
              rw (e, drain_elem) (rw was (rw did refl)),
              record {
                stayed = ground (arith, e, was);
                moved = λ ys. ground (arith, e, was);
                swept = swept task e was;
              },
            )

    filter-cong :
        (f g : ℕ → Bool) (keys : List ℕ)
        → ((j : ℕ) → contains j keys ≡ true → f j ≡ g j)
        → filter f keys ≡ filter g keys
    filter-cong f g [] same = refl
    filter-cong f g (key ∷ keys) same =
        let rest = filter-cong f g keys (λ j mem. same j (ground (arith, mem))) in
        rw (same key (ground arith)) (rw rest refl)

    AllIn-cong :
        (r r1 : R) (keys : List ℕ)
        → ((j : ℕ) → contains j keys ≡ true → get r1 j ≡ get r j)
        → AllIn r keys
        → AllIn r1 keys
    AllIn-cong r r1 [] same all = tt
    AllIn-cong r r1 (key ∷ keys) same (there, all) = (
      ap is_some (same key (ground arith)) ∙ there,
      AllIn-cong r r1 keys (λ j mem. same j (ground (arith, mem))) all,
    )

    -- Other elements see the same registry.
    unswept :
        (elem : ℕ) (from : List ℕ) (r r1 : R)
        → IsSwept (elem ∷ []) r r1
        → contains elem from ≡ false
        → (j : ℕ) → contains j from ≡ true
        → get r1 j ≡ get r j
    unswept elem from r r1 did absent j mem = elim (ℕ_discrete elem j) [
      | yes at ↦ absurd (ground (arith, mem, subst (λ k. contains k from ≡ false) at absent))
      | no away ↦ ground (arith, away, did.others j)
    ]

    IsSwept-trans :
        (elem : ℕ) (from : List ℕ) (r r1 r' : R)
        → IsSwept (elem ∷ []) r r1
        → IsSwept from r1 r'
        → IsSwept (elem ∷ from) r r'
    IsSwept-trans elem from r r1 r' did later = record {
      others = λ j. ground (arith, did.others j, later.others j);
      same_capacity = later.same_capacity ∙ did.same_capacity;
      kept = later.kept;
    }

    pub drain-IsSwept :
        (from to : List ℕ) (r : R)
        → reg.Inv r
        → AllIn r from
        → AllDistinct from
        → (r' : R) × (drain reg flags from to r
            ≡ ok (filter (stays flags r) from, to ++ filter (runs flags r) from, r'))
          × IsSwept from r r'
    unfolding drain
    drain-IsSwept [] to r inv all apart = (
      r,
      ap (λ l. ok ([], l, r)) (sym (append-nil to)),
      record { others = λ j. refl; same_capacity = refl; kept = inv },
    )
    drain-IsSwept (elem ∷ from) to r inv (there, all) (absent, apart) =
        let (d, e, did) = drain_elem-IsVisited elem to r inv there in
        let same = unswept elem from r d.2 did.swept absent in
        let (r', e', later) =
          drain-IsSwept from d.1 d.2 did.swept.kept (AllIn-cong r d.2 from same all) apart in
        let stay =
          filter-cong (stays flags d.2) (stays flags r) from
            (λ j mem. ap (stays_of flags) (same j mem)) in
        let run =
          filter-cong (runs flags d.2) (runs flags r) from
            (λ j mem. ap (runs_of flags) (same j mem)) in
        (
          r',
          rw e (
              rw e' (
                rw did.stayed (
                  rw stay (
                    rw run (
                      ap (λ l. ok (filter (stays flags r) (elem ∷ from), l, r'))
                        (did.moved (filter (runs flags r) from))))))),
          IsSwept-trans elem from r d.2 r' did.swept later,
        )
