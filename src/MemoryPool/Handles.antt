-- ===== src/MemoryPool/Handles.antt =====
-- The handles and reference-counted chunks of include/txl/memory_pool.h.
use libtxl.Prelude.{ℕ, Option, none, some}
use libtxl.MemoryPool.Defs.{
  MemoryPool, chunk, out_of_memory, bad_access, get_free_chunk, inc_ref, dec_ref,
}

-- `memory_pool_handle` and `memory_pool_chunk`: the page, and the size; `none` is `nullptr`.
pub record Handle : Type 0 where
  pub page : Option ℕ
  pub size : ℕ

abbrev pub empty_handle : Handle
empty_handle = record { page = none; size = 0 }

-- `rent` and `allocate`; `none` is fuel that ran out, and `some none` an access out of the pool.
unfoldable pub rent : ℕ → MemoryPool → ℕ → Option (Option (Handle × MemoryPool))
rent fuel p num_bytes = elim (get_free_chunk fuel p num_bytes) [
  | none ↦ none
  | some (chunk id q) ↦ some (some (record { page = some id; size = num_bytes }, q))
  | some (out_of_memory q) ↦ some (some (empty_handle, q))
  | some bad_access ↦ some none
]

-- `release`, and `close` of a chunk
unfoldable pub release : MemoryPool → Handle → Option (Handle × MemoryPool)
release p h = elim h.page [
  | none ↦ some (h, p)
  | some id ↦ elim (dec_ref p id) [ none ↦ none | some (_, q) ↦ some (empty_handle, q) ]
]

-- The copy of a `memory_pool_chunk`
unfoldable pub share : MemoryPool → Handle → Option (Handle × MemoryPool)
share p h = elim h.page [
  | none ↦ some (h, p)
  | some id ↦ elim (inc_ref p id) [ none ↦ none | some (_, q) ↦ some (h, q) ]
]
