-- ===== src/Registry/Borrows.antt =====
-- src/dy/registry.rs: the sequences of calls of a debug build, and what borrows and iterators keep.
use juggle.Prelude.{
  ℕ, zero, suc, ◌+◌, ◌%◌, ◌<◌, ◌≡◌, refl, sym, ap, ◌∙◌, subst, Bool, true, false, Option, none,
  some, List, [], ◌∷◌, length, ◌==◌, if◌then◌else◌, Outcome, Panic, ok, panic, arith, get_elem?,
  without_at, length-without_at, get_elem?-without_at, borrow_in_retain, iterate_in_retain,
  subtract_overflow, ok-injective,
}
use juggle.Slab.{ChunkSlab, chunk_size}
use juggle.Slab
use juggle.Slab.Inv.{Inv}
use juggle.Registry.{usize_key}
use juggle.Registry.Flags.{
  Flagged, new, lend, get, drop_borrow, iter, drop_iter, insert, remove, retain,
}

some_injective : {A : Type 0} {a b : A} → some a ≡ some b → a ≡ b
some_injective e = cc

-- A guard that let a call through.
pub else-eq_ok :
    {A : Type 0} (b : Bool) (p : Panic) (o : Outcome A) {a : A}
    → (if b then panic p else o) ≡ ok a
    → (b ≡ false) × (o ≡ ok a)
else-eq_ok true p o e = absurd (cc e)
else-eq_ok false p o e = (refl, e)

module _ (T : Type 0) (m : ℕ) (whole : (m + 1) % chunk_size ≡ 0) where
  -- The calls that a registry returned from, with the references and the iterators that are alive:
  -- those by key and task, these by what they go over.
  pub data Run : Flagged T → List (ℕ × T) → List (List (ℕ × T)) → Type 0 where
    start : Run new [] []
    borrowed :
        {g g' : Flagged T} {held : List (ℕ × T)} {its : List (List (ℕ × T))} (key : ℕ) (task : T)
        → Run g held its
        → get m key g ≡ ok (some task, g')
        → Run g' ((key, task) ∷ held) its
    not_found :
        {g g' : Flagged T} {held : List (ℕ × T)} {its : List (List (ℕ × T))} (key : ℕ)
        → Run g held its
        → get m key g ≡ ok (none, g')
        → Run g' held its
    released :
        {g g' : Flagged T} {held : List (ℕ × T)} {its : List (List (ℕ × T))} (i : ℕ)
        → Run g held its
        → i < length held
        → drop_borrow g ≡ ok g'
        → Run g' (without_at i held) its
    iterating :
        {g g' : Flagged T} {held : List (ℕ × T)} {its : List (List (ℕ × T))} (items : List (ℕ × T))
        → Run g held its
        → iter m g ≡ ok (items, g')
        → Run g' held (items ∷ its)
    iterated :
        {g g' : Flagged T} {held : List (ℕ × T)} {its : List (List (ℕ × T))} (i : ℕ)
        → Run g held its
        → i < length its
        → drop_iter g ≡ ok g'
        → Run g' held (without_at i its)
    inserted :
        {g g' : Flagged T} {held : List (ℕ × T)} {its : List (List (ℕ × T))} (val : T)
        (key : Option ℕ)
        → Run g held its
        → insert m val g ≡ ok (key, g')
        → Run g' held its
    removed_at :
        {g g' : Flagged T} {held : List (ℕ × T)} {its : List (List (ℕ × T))} (key : ℕ)
        (o : Option (Unit {0}))
        → Run g held its
        → remove m key g ≡ ok (o, g')
        → Run g' held its
    retained :
        {g g' : Flagged T} {held : List (ℕ × T)} {its : List (List (ℕ × T))} (func : ℕ → T → Bool)
        → Run g held its
        → retain m func g ≡ ok g'
        → Run g' held its

  pub record IsGuarded (g : Flagged T) (held : List (ℕ × T)) (its : List (List (ℕ × T)))
      : Type 0 where
    pub valid : Inv (usize_key m) g.slab
    pub borrows : g.borrow_flag ≡ length held
    pub iterators : g.iterate_flag ≡ length its
    pub alive :
        (i key : ℕ) (task : T)
        → get_elem? held i ≡ some (key, task)
        → Slab.get g.slab key ≡ some task
    pub whole_view :
        (i : ℕ) (items : List (ℕ × T))
        → get_elem? its i ≡ some items
        → Slab.iter (usize_key m) g.slab ≡ items

  module _ (g : Flagged T) (held : List (ℕ × T)) (its : List (List (ℕ × T)))
      (inv : IsGuarded g held its) where
    pub borrowed-IsGuarded :
        (g' : Flagged T) (key : ℕ) (task : T)
        → get m key g ≡ ok (some task, g')
        → IsGuarded g' ((key, task) ∷ held) its
    unfolding get
    borrowed-IsGuarded g' key task e =
        by_value (Slab.get g.slab key) refl
          (ok-injective (else-eq_ok (g.borrow_flag == m) borrow_in_retain _ e).1)
      where
        live :
            Slab.get g.slab key ≡ some task
            → (i k : ℕ) (u : T) → get_elem? ((key, task) ∷ held) i ≡ some (k, u)
            → Slab.get g.slab k ≡ some u
        live found zero k u there =
            let both : (key, task) ≡ (k, u) = some_injective there in
            ap (Slab.get g.slab) (sym (ap (λ p. p.0) both)) ∙ found ∙ ap (λ p. some p.1) both
        live found (suc i) k u there = inv.alive i k u there

        by_value :
            (o : Option T)
            → Slab.get g.slab key ≡ o
            → lend o g ≡ (some task, g')
            → IsGuarded g' ((key, task) ∷ held) its
        by_value none at q = absurd (cc (ap (λ r. r.0) q))
        by_value (some t) at q =
            subst (λ u. IsGuarded u ((key, task) ∷ held) its) (ap (λ r. r.1) q)
              (record {
                valid = inv.valid;
                borrows = omega (arith, inv.borrows);
                iterators = inv.iterators;
                alive = λ i k u there. live (at ∙ ap (λ r. r.0) q) i k u there;
                whole_view = inv.whole_view;
              })

    pub not_found-IsGuarded :
        (g' : Flagged T) (key : ℕ) → get m key g ≡ ok (none, g') → IsGuarded g' held its
    unfolding get
    not_found-IsGuarded g' key e =
        by_value (Slab.get g.slab key)
          (ok-injective (else-eq_ok (g.borrow_flag == m) borrow_in_retain _ e).1)
      where
        by_value : (o : Option T) → lend o g ≡ (none, g') → IsGuarded g' held its
        by_value none q = subst (λ u. IsGuarded u held its) (ap (λ r. r.1) q) inv
        by_value (some t) q = absurd (cc (ap (λ r. r.0) q))

    pub released-IsGuarded :
        (g' : Flagged T) (i : ℕ)
        → i < length held
        → drop_borrow g ≡ ok g'
        → IsGuarded g' (without_at i held) its
    unfolding drop_borrow
    released-IsGuarded g' i lt e =
        let (up, q) = else-eq_ok (g.borrow_flag == 0) subtract_overflow _ e in
        subst (λ u. IsGuarded u (without_at i held) its) (ok-injective q)
          (record {
            valid = inv.valid;
            borrows = omega (arith, inv.borrows, length-without_at held i lt);
            iterators = inv.iterators;
            alive = λ j k u there.
                let (l, there') = get_elem?-without_at held i j (k, u) there in
                inv.alive l k u there';
            whole_view = inv.whole_view;
          })

    pub iterating-IsGuarded :
        (g' : Flagged T) (items : List (ℕ × T))
        → iter m g ≡ ok (items, g')
        → IsGuarded g' held (items ∷ its)
    unfolding iter
    iterating-IsGuarded g' items e =
        let (free, q) = else-eq_ok (g.iterate_flag == m) iterate_in_retain _ e in
        let both = ok-injective q in
        subst (λ u. IsGuarded u held (items ∷ its)) (ap (λ r. r.1) both)
          (record {
            valid = inv.valid;
            borrows = inv.borrows;
            iterators = omega (arith, inv.iterators);
            alive = inv.alive;
            whole_view = λ i seen there. view (ap (λ r. r.0) both) i seen there;
          })
      where
        view :
            Slab.iter (usize_key m) g.slab ≡ items
            → (i : ℕ) (seen : List (ℕ × T)) → get_elem? (items ∷ its) i ≡ some seen
            → Slab.iter (usize_key m) g.slab ≡ seen
        view all zero seen there = all ∙ some_injective there
        view all (suc i) seen there = inv.whole_view i seen there

    pub iterated-IsGuarded :
        (g' : Flagged T) (i : ℕ)
        → i < length its
        → drop_iter g ≡ ok g'
        → IsGuarded g' held (without_at i its)
    unfolding drop_iter
    iterated-IsGuarded g' i lt e =
        let (up, q) = else-eq_ok (g.iterate_flag == 0) subtract_overflow _ e in
        subst (λ u. IsGuarded u held (without_at i its)) (ok-injective q)
          (record {
            valid = inv.valid;
            borrows = inv.borrows;
            iterators = omega (arith, inv.iterators, length-without_at its i lt);
            alive = inv.alive;
            whole_view = λ j seen there.
                let (l, there') = get_elem?-without_at its i j seen there in
                inv.whole_view l seen there';
          })
