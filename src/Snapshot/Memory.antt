-- ===== src/Snapshot/Memory.antt =====
-- snapshot/memory_writer.go: the newest counters, kept under a lock. json.Marshal is a parameter.
use sigbench.Prelude.{ℕ, [], Option, none}
use sigbench.Counters.{Counters}

pub record MemorySnapshotWriter : Type 0 where
  pub counters : Counters
  pub updated_at : ℕ

-- `updated_at` is the zero time.
unfoldable pub new_memory_writer : MemorySnapshotWriter
new_memory_writer = record { counters = []; updated_at = 0 }

unfoldable pub write_memory :
    {E : Type 0} → ℕ → Counters → MemorySnapshotWriter → MemorySnapshotWriter × Option E
write_memory now counters w = (record { counters = counters; updated_at = now }, none)

-- The payload is the pair of the fields.
unfoldable pub dump : {R : Type 0} → (Counters → ℕ → R) → MemorySnapshotWriter → R
dump marshal w = marshal w.counters w.updated_at
