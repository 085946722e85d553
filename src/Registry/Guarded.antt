-- ===== src/Registry/Guarded.antt =====
-- src/dy/registry.rs: what the flags of a debug build guard, in every sequence of calls.
use juggle.Prelude.{
  ℕ, ◌+◌, ◌%◌, ◌≡◌, refl, sym, ap, ◌∙◌, subst, Bool, true, false, Bool-cases, inl, inr, Option,
  none, some, List, ◌==◌, Outcome, ok, panic, ◌>>=◌, arith, get_elem?, lt_of_get_elem?,
  ok-injective, ℕ_discrete,
}
use juggle.Slab.{ChunkSlab, chunk_size}
use juggle.Slab
use juggle.Slab.Inv.{Inv}
use juggle.Slab.Map.{new-Inv}
use juggle.Slab.Retain.{retain-IsRetained}
use juggle.TaskRegistry.{InsertPost, IsInserted}
use juggle.Registry
use juggle.Registry.{usize_key}
use juggle.Registry.Instance.{insert_Post, removed}
use juggle.Registry.Flags.{Flagged, in_use, insert, remove, guard_retain, retain}
use juggle.Registry.Borrows.{
  Run, start, borrowed, not_found, released, iterating, iterated, inserted, removed_at, retained,
  IsGuarded, else-eq_ok, borrowed-IsGuarded, not_found-IsGuarded, released-IsGuarded,
  iterating-IsGuarded, iterated-IsGuarded,
}

module _ (T : Type 0) (m : ℕ) (whole : (m + 1) % chunk_size ≡ 0) where
  module _ (g : Flagged T) (held : List (ℕ × T)) (its : List (List (ℕ × T)))
      (inv : IsGuarded T m whole g held its) where
    -- A change of the slab while no iterator is alive, which keeps the borrowed tasks.
    changed-IsGuarded :
        (r : ChunkSlab T)
        → (g.iterate_flag == 0) ≡ true
        → Inv (usize_key m) r
        → ((i key : ℕ) (task : T)
            → get_elem? held i ≡ some (key, task)
            → Slab.get r key ≡ some task)
        → IsGuarded T m whole (record g { slab = r }) held its
    changed-IsGuarded r none_iterates valid alive = record {
      valid = valid;
      borrows = inv.borrows;
      iterators = inv.iterators;
      alive = alive;
      whole_view = λ i items there.
          absurd (ground (arith, none_iterates, inv.iterators, lt_of_get_elem? its i there));
    }

    inserted-IsGuarded :
        (g' : Flagged T) (val : T) (o : Option ℕ)
        → insert m val g ≡ ok (o, g')
        → IsGuarded T m whole g' held its
    unfolding insert
    inserted-IsGuarded g' val o e = elim (Bool-cases (g.iterate_flag == 0)) [
      | inr iterates ↦ absurd (cc (rw (iterates, insert) at e))
      | inl free ↦
          by_insert free (Registry.insert m val g.slab) (insert_Post T m whole val g.slab inv.valid)
            (rw (free, insert) at e)
    ]
      where
        by_insert :
            g.iterate_flag == 0 ≡ true
            → (p : Outcome (Option ℕ × ChunkSlab T))
            → InsertPost Slab.get Slab.capacity (Inv (usize_key m)) val g.slab p
            → ◌>>=◌ {B = Option ℕ × Flagged T} p (λ r. ok (r.0, record g { slab = r.1 }))
              ≡ ok (o, g')
            → IsGuarded T m whole g' held its
        by_insert free (panic p) post q = absurd (cc q)
        by_insert free (ok (none, r)) post q =
            subst (λ u. IsGuarded T m whole u held its) (ap (λ r. r.1) (ok-injective q))
              (changed-IsGuarded r free (subst (Inv (usize_key m)) (sym post) inv.valid)
                (λ i key task there. ap (λ s. Slab.get s key) post ∙ inv.alive i key task there))
        by_insert free (ok (some at, r)) (did, valid) q =
            subst (λ u. IsGuarded T m whole u held its) (ap (λ r. r.1) (ok-injective q))
              (changed-IsGuarded r free valid
                (λ i key task there. kept at r did key task (inv.alive i key task there)))
          where
            kept :
                (at : ℕ) (r : ChunkSlab T)
                → IsInserted Slab.get Slab.capacity val g.slab at r
                → (key : ℕ) (task : T) → Slab.get g.slab key ≡ some task
                → Slab.get r key ≡ some task
            kept at r did key task there = elim (ℕ_discrete at key) [
              | yes same ↦ absurd (cc (ap (Slab.get g.slab) same, did.fresh, there))
              | no away ↦ did.stored key ∙ ground (arith, away, there)
            ]

    -- Nothing is borrowed when the flags let a removal through.
    unused :
        in_use g ≡ false
        → ((g.iterate_flag == 0) ≡ true)
          × ((i key : ℕ) (task : T) (r : ChunkSlab T)
              → get_elem? held i ≡ some (key, task)
              → Slab.get r key ≡ some task)
    unused free = (
      ground (arith, free),
      λ i key task r there.
          absurd (ground (arith, free, inv.borrows, lt_of_get_elem? held i there)),
    )

    removed-IsGuarded :
        (g' : Flagged T) (key : ℕ) (o : Option (Unit {0}))
        → remove m key g ≡ ok (o, g')
        → IsGuarded T m whole g' held its
    unfolding remove
    removed-IsGuarded g' key o e =
        let (free, q) = else-eq_ok (in_use g) _ _ e in
        let (still, none_held) = unused free in
        subst (λ u. IsGuarded T m whole u held its) (ap (λ r. r.1) (ok-injective q))
          (changed-IsGuarded (Registry.remove key g.slab).1 still
            (removed T m whole key g.slab inv.valid).kept
            (λ i k task there. none_held i k task (Registry.remove key g.slab).1 there))

    retained-IsGuarded :
        (g' : Flagged T) (func : ℕ → T → Bool)
        → retain m func g ≡ ok g'
        → IsGuarded T m whole g' held its
    unfolding retain guard_retain
    retained-IsGuarded g' func e = elim (Bool-cases (in_use g)) [
      | inl used ↦ absurd (cc (rw (used, retain, guard_retain) at e))
      | inr free ↦
          let (still, none_held) = unused free in
          subst (λ u. IsGuarded T m whole u held its)
            (ok-injective (rw (free, retain, guard_retain) at e))
            (record {
              valid = (retain-IsRetained func (usize_key m) g.slab inv.valid).kept;
              borrows = ground (arith, free, inv.borrows);
              iterators = ground (arith, free, inv.iterators);
              alive = λ i k task there.
                  none_held i k task (Slab.retain (usize_key m) func g.slab) there;
              whole_view = λ i items there.
                  absurd (ground (arith, still, inv.iterators, lt_of_get_elem? its i there));
            })
    ]

  -- After any calls that returned, from an empty registry: the slab is well formed, the flags are the
  -- numbers of the living references and iterators, each living reference is to a task that is still
  -- at its key as it was when it was lent, and each living iterator goes over all tasks that there are.
  pub run-IsGuarded :
      {g : Flagged T} {held : List (ℕ × T)} {its : List (List (ℕ × T))}
      → Run T m whole g held its
      → IsGuarded T m whole g held its
  run-IsGuarded start = record {
    valid = new-Inv (usize_key m);
    borrows = refl;
    iterators = refl;
    alive = λ i k task there. cc there;
    whole_view = λ i items there. cc there;
  }
  run-IsGuarded (borrowed key task r e) =
      borrowed-IsGuarded T m whole _ _ _ (run-IsGuarded r) _ key task e
  run-IsGuarded (not_found key r e) = not_found-IsGuarded T m whole _ _ _ (run-IsGuarded r) _ key e
  run-IsGuarded (released i r lt e) = released-IsGuarded T m whole _ _ _ (run-IsGuarded r) _ i lt e
  run-IsGuarded (iterating items r e) =
      iterating-IsGuarded T m whole _ _ _ (run-IsGuarded r) _ items e
  run-IsGuarded (iterated i r lt e) = iterated-IsGuarded T m whole _ _ _ (run-IsGuarded r) _ i lt e
  run-IsGuarded (inserted val o r e) = inserted-IsGuarded _ _ _ (run-IsGuarded r) _ val o e
  run-IsGuarded (removed_at key o r e) = removed-IsGuarded _ _ _ (run-IsGuarded r) _ key o e
  run-IsGuarded (retained func r e) = retained-IsGuarded _ _ _ (run-IsGuarded r) _ func e
