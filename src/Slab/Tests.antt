-- ===== src/Slab/Tests.antt =====
-- Concrete slabs, with the inputs of the tests in src/utils/chunk_slab.rs, and the theorems on them.
use juggle.Prelude.{
  ℕ, zero, suc, ◌-◌, ◌^◌, ◌≤◌, ◌≡◌, refl, sym, subst, none, some, List, [], ◌∷◌, arith, Outcome, ok,
  panic, ◌==◌, if◌then◌else◌, ltb, false,
}
use juggle.Slab.{
  KeyType, ChunkSlab, new, insert, remove, get, init_chunk, capacity, iter, iter_from, iter_chunk,
  retain, retain_from, retain_chunk,
}
use juggle.Slab.Inv.{IsKeyType, Inv}
use juggle.Slab.Insert.{IsInserted, insert_total}
use juggle.Slab.Remove.{IsRemoved, remove-IsRemoved, insert-remove}
use juggle.Slab.Retain.{IsRetained, retain-IsRetained}
use juggle.Slab.Map.{Call, inserts, removes, clears, insert_count, run, run_total, new-Inv}

abbrev u8_key : KeyType
u8_key = record { max_value = 255; usize_max = 2 ^ 64 - 1 }

u8_key-IsKeyType : IsKeyType u8_key
u8_key-IsKeyType = record { whole = refl; fits = omega arith }

abbrev or_new : Outcome (ℕ × ChunkSlab ℕ) → ChunkSlab ℕ
or_new (ok (key, s)) = s
or_new (panic p) = new

abbrev one : ChunkSlab ℕ
one = or_new (insert u8_key 10 new)

abbrev two : ChunkSlab ℕ
two = or_new (insert u8_key 20 one)

two_values : (get two 0 ≡ some 10) × (get two 1 ≡ some 20) × (get two 2 ≡ none) × (two.len ≡ 2)
unfolding insert init_chunk
two_values = (refl, refl, refl, refl)

one-Inv : Inv u8_key one
unfolding insert init_chunk
one-Inv =
    let (key, s, e, did) =
      insert_total u8_key 10 new u8_key-IsKeyType (new-Inv u8_key) (omega arith) in
    subst (λ r. Inv u8_key (or_new r)) (sym e) did.kept

two-Inv : Inv u8_key two
unfolding insert init_chunk
two-Inv =
    let (key, s, e, did) = insert_total u8_key 20 one u8_key-IsKeyType one-Inv (omega arith) in
    subst (λ r. Inv u8_key (or_new r)) (sym e) did.kept

insert_total_example :
    (key : ℕ) × (s' : ChunkSlab ℕ) × (insert u8_key 30 two ≡ ok (key, s'))
    × IsInserted u8_key 30 two key s'
unfolding insert init_chunk
insert_total_example = insert_total u8_key 30 two u8_key-IsKeyType two-Inv (omega arith)

remove-IsRemoved_example : IsRemoved u8_key 1 two (remove 1 two)
remove-IsRemoved_example = remove-IsRemoved u8_key 1 two two-Inv

insert-remove_example :
    (s' : ChunkSlab ℕ) × (insert u8_key 40 (remove 0 two).1 ≡ ok (0, s'))
    × (s'.len ≡ two.len)
    × (capacity s' ≡ capacity two)
    × ((j : ℕ) → get s' j ≡ (if 0 == j then some 40 else get two j))
unfolding insert init_chunk
insert-remove_example = insert-remove u8_key 0 10 40 two u8_key-IsKeyType two-Inv refl

abbrev history : List (Call ℕ)
history =
    inserts 10
    ∷ inserts 20
    ∷ inserts 30
    ∷ removes 1
    ∷ removes 1
    ∷ removes 0
    ∷ inserts 40
    ∷ clears
    ∷ []

run_total_example :
    (t : ChunkSlab ℕ) × (run u8_key history new ≡ ok t)
    × Inv u8_key t
    × (t.len ≤ insert_count history)
run_total_example = run_total u8_key history new u8_key-IsKeyType (new-Inv u8_key) (omega arith)

-- A key type of one chunk, and a slab that uses all its keys.
abbrev chunk_key : KeyType
chunk_key = record { max_value = 15; usize_max = 2 ^ 64 - 1 }

chunk_key-IsKeyType : IsKeyType chunk_key
chunk_key-IsKeyType = record { whole = refl; fits = omega arith }

abbrev fills : ℕ → List (Call ℕ)
fills zero = []
fills (suc n) = inserts n ∷ fills n

abbrev or_empty : Outcome (ChunkSlab ℕ) → ChunkSlab ℕ
or_empty (ok s) = s
or_empty (panic p) = new

abbrev used_up : ChunkSlab ℕ
used_up = or_empty (run chunk_key (fills 16) new)

used_up-Inv : Inv chunk_key used_up
unfolding run
used_up-Inv =
    let (t, e, inv, le) =
      run_total chunk_key (fills 16) new chunk_key-IsKeyType (new-Inv chunk_key) (omega arith) in
    subst (λ r. Inv chunk_key (or_empty r)) (sym e) inv

used_up-len : used_up.len ≡ 16
unfolding run insert init_chunk
used_up-len = refl

-- Small values go; the keys that they had are free, the last one first.
retained :
    (iter u8_key (retain u8_key (λ key v. ltb 15 v) two) ≡ (1, 20) ∷ [])
    × ((retain u8_key (λ key v. ltb 15 v) two).len ≡ 1)
    × ((retain u8_key (λ key v. ltb 15 v) two).next ≡ 0)
    × ((retain u8_key (λ key v. false) two).next ≡ 1)
unfolding insert init_chunk iter retain retain_from retain_chunk iter_from iter_chunk
retained = (refl, refl, refl, refl)

retain-IsRetained_example :
    IsRetained (λ key v. ltb 15 v) u8_key two (retain u8_key (λ key v. ltb 15 v) two)
retain-IsRetained_example = retain-IsRetained (λ key v. ltb 15 v) u8_key two two-Inv
