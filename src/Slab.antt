-- ===== src/Slab.antt =====
-- src/utils/chunk_slab.rs: a slab in chunks of 16 entries with a free list through its empty ones.
pub mod Cells
pub mod Inv
pub mod Insert
pub mod Remove
pub mod Iter
pub mod Full
pub mod Map
pub mod Sweep
pub mod Retain
pub mod Tests
use juggle.Prelude.{
  ℕ, zero, suc, ◌+◌, ◌-◌, ◌*◌, ◌/◌, ◌%◌, Bool, true, false, not, ◌&&◌, Option, none, some, List, [],
  ◌∷◌, ◌++◌, length, get_elem?, set, ◌==◌, if◌then◌else◌, Outcome, ok, panic, slab_overflow,
  unreachable_code, out_of_bounds,
}

abbrev pub chunk_size : ℕ
chunk_size = 16

-- A key type is known by its greatest value; `usize_max` is that of the machine's `usize`.
pub record KeyType : Type 0 where
  pub max_value : ℕ
  pub usize_max : ℕ

-- `idx as Self` and `self + 1`.
abbrev pub from_index : KeyType → ℕ → ℕ
from_index k idx = idx % (k.max_value + 1)

abbrev pub wrapping_inc : KeyType → ℕ → ℕ
wrapping_inc k idx = (idx + 1) % (k.usize_max + 1)

pub data Entry {ℓ} (T : Type ℓ) : Type ℓ where
  empty : ℕ → Entry T
  full : T → Entry T

pub record ChunkSlab {ℓ} (T : Type ℓ) : Type ℓ where
  pub entries : List (List (Entry T))
  pub len : ℕ
  pub next : ℕ

module _ {ℓ} {T : Type ℓ} where
  -- The loop of `Chunk::init` over `data[1..]`, with the entries left to write.
  unfoldable pub init_rest : KeyType → ℕ → ℕ → List (Entry T)
  init_rest k zero start = []
  init_rest k (suc left) start =
      empty (from_index k (wrapping_inc k start))
      ∷ init_rest k left (from_index k (wrapping_inc k start))

  unfoldable pub init_chunk : KeyType → ℕ → T → List (Entry T)
  unfolding init_rest
  init_chunk k start first = full first ∷ init_rest k 15 (start + 1)

  abbrev pub new : ChunkSlab T
  new = record { entries = []; len = 0; next = 0 }

  abbrev pub capacity : ChunkSlab T → ℕ
  capacity s = length s.entries * chunk_size

  -- `data[..] = entry` at a key, both indexings checked.
  abbrev pub write : List (List (Entry T)) → ℕ → Entry T → List (List (Entry T))
  write cs key e = elim (get_elem? cs (key / chunk_size)) [
    | none ↦ cs
    | some c ↦ set cs (key / chunk_size) (set c (key % chunk_size) e)
  ]

  -- The entry of a key, if its chunk is allocated.
  abbrev pub cell_of : List (List (Entry T)) → ℕ → Option (Entry T)
  cell_of cs key = elim (get_elem? cs (key / chunk_size)) [
    | none ↦ none
    | some c ↦ get_elem? c (key % chunk_size)
  ]

  abbrev pub cell : ChunkSlab T → ℕ → Option (Entry T)
  cell s key = cell_of s.entries key

  -- The capacity test; a `usize` slab has none.
  abbrev pub is_exhausted : KeyType → ChunkSlab T → Bool
  is_exhausted k s = not (k.max_value == k.usize_max) && ((s.len - 1) == k.max_value)

  -- What `insert` does at an allocated key: fill the entry and take over its link.
  insert_at : ChunkSlab T → T → Option (Entry T) → Outcome (ℕ × ChunkSlab T)
  insert_at s val none = panic out_of_bounds
  insert_at s val (some (full _)) = panic unreachable_code
  insert_at s val (some (empty link)) =
      ok (
        s.next,
        record { entries = write s.entries s.next (full val); len = s.len + 1; next = link },
      )

  unfoldable pub insert : KeyType → T → ChunkSlab T → Outcome (ℕ × ChunkSlab T)
  unfolding insert_at
  insert k val s =
      if is_exhausted k s
      then panic slab_overflow
      else if s.next == capacity s
      then ok (
        s.next,
        record {
          entries = s.entries ++ init_chunk k s.next val ∷ [];
          len = s.len + 1;
          next = s.next + 1;
        },
      )
      else insert_at s val (cell s s.next)

  remove_at : ℕ → ChunkSlab T → Option (Entry T) → Option T × ChunkSlab T
  remove_at key s (some (full val)) = (
    some val,
    record { entries = write s.entries key (empty s.next); len = s.len - 1; next = key },
  )
  remove_at key s _ = (none, s)

  unfoldable pub remove : ℕ → ChunkSlab T → Option T × ChunkSlab T
  unfolding remove_at
  remove key s = remove_at key s (cell s key)

  abbrev pub clear : ChunkSlab T → ChunkSlab T
  clear s = record { entries = []; len = 0; next = 0 }

  abbrev pub value : Option (Entry T) → Option T
  value (some (full val)) = some val
  value _ = none

  abbrev pub get : ChunkSlab T → ℕ → Option T
  get s key = value (cell s key)

  -- A write through `get_mut`.
  abbrev pub modify : (T → T) → ℕ → ChunkSlab T → ChunkSlab T
  modify f key s = elim (get s key) [
    | none ↦ s
    | some val ↦ record s { entries = write s.entries key (full (f val)) }
  ]

  -- `iter` and `iter_mut`: the keys and values of the full entries in order. `off` is the key of
  -- the first entry.
  unfoldable pub iter_chunk : KeyType → ℕ → List (Entry T) → List (ℕ × T)
  iter_chunk k off [] = []
  iter_chunk k off (full val ∷ es) = (from_index k off, val) ∷ iter_chunk k (off + 1) es
  iter_chunk k off (empty _ ∷ es) = iter_chunk k (off + 1) es

  unfoldable pub iter_from : KeyType → ℕ → List (List (Entry T)) → List (ℕ × T)
  unfolding iter_chunk
  iter_from k off [] = []
  iter_from k off (c ∷ cs) = iter_chunk k off c ++ iter_from k (off + chunk_size) cs

  unfoldable pub iter : KeyType → ChunkSlab T → List (ℕ × T)
  unfolding iter_from
  iter k s = iter_from k 0 s.entries

  -- `retain`: the loop over a chunk from the key `off` on, with `len` and `next`. In a call the closure
  -- gets each key at most once, so that its answers are a function of what it gets.
  unfoldable pub retain_chunk :
      KeyType → (ℕ → T → Bool) → ℕ → List (Entry T) → ℕ → ℕ → List (Entry T) × ℕ × ℕ
  retain_chunk k func off [] len next = ([], len, next)
  retain_chunk k func off (empty link ∷ es) len next =
      let r = retain_chunk k func (off + 1) es len next in (empty link ∷ r.0, r.1, r.2)
  retain_chunk k func off (full val ∷ es) len next =
      let key = from_index k off in
      let kept = retain_chunk k func (off + 1) es len next in
      let gone = retain_chunk k func (off + 1) es (len - 1) key in
      if func key val
      then (full val ∷ kept.0, kept.1, kept.2)
      else (empty next ∷ gone.0, gone.1, gone.2)

  unfoldable pub retain_from :
      KeyType → (ℕ → T → Bool) → ℕ → List (List (Entry T)) → ℕ → ℕ → List (List (Entry T)) × ℕ × ℕ
  retain_from k func off [] len next = ([], len, next)
  retain_from k func off (c ∷ cs) len next =
      let r = retain_chunk k func off c len next in
      let rest = retain_from k func (off + chunk_size) cs r.1 r.2 in (r.0 ∷ rest.0, rest.1, rest.2)

  unfoldable pub retain : KeyType → (ℕ → T → Bool) → ChunkSlab T → ChunkSlab T
  retain k func s =
      let r = retain_from k func 0 s.entries s.len s.next in
      record { entries = r.0; len = r.1; next = r.2 }
