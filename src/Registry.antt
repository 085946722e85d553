-- ===== src/Registry.antt =====
-- src/dy/registry.rs: the registry of a wheel's tasks over a slab with `usize` keys, as a release
-- build compiles it (without the debug flags).
pub mod Instance
pub mod Flags
pub mod Borrows
pub mod Guarded
pub mod Tests
use juggle.Prelude.{ℕ, Option, none, some, Outcome, ok, ◌>>=◌}
use mathlib.Core.Option
use juggle.Slab.{KeyType, ChunkSlab}
use juggle.Slab

-- The machine's `usize` as a key type, by its greatest value.
abbrev pub usize_key : ℕ → KeyType
usize_key m = record { max_value = m; usize_max = m }

module _ {T : Type 0} where
  unfoldable pub insert : ℕ → T → ChunkSlab T → Outcome (Option ℕ × ChunkSlab T)
  insert m task r = Slab.insert (usize_key m) task r >>= λ p. ok (some p.0, p.1)

  unfoldable pub remove : ℕ → ChunkSlab T → Option (Unit {0}) × ChunkSlab T
  remove key r = let p = Slab.remove key r in (Option.map (λ val. tt) p.0, p.1)
