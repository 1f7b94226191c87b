-- ===== src/MemoryPool/Tests.antt =====
-- A pool of include/txl/memory_pool.h with eight pages of 64 bytes.
use libtxl.Prelude.{ℕ, ◌+◌, ◌-◌, ◌/◌, ◌≡◌, refl, none, some, List, [], ◌∷◌, arith}
use libtxl.MemoryPool.Defs.{
  MemoryPool, ChunkHeader, memory_pool, mem_chunk, pages_of, find_free_list_chunk, get_free_chunk,
}
use libtxl.MemoryPool.Handles.{empty_handle, rent, release}
use libtxl.MemoryPool.Regions.{Region, rent_all, rent_all-Apart, Apart}
use libtxl.MemoryPool.Reuse.{IsHeld, handle, rent_twice, rent_loops}

abbrev one_page : ChunkHeader
one_page = record { word = 1; num_pages = 1; kind = mem_chunk }

abbrev unused : ChunkHeader
unused = record { word = 0; num_pages = 0; kind = 0 }

abbrev ceil_quotient : ℕ → ℕ → ℕ
ceil_quotient a b = (a + b - 1) / b

-- The pool behind two rents of 40 bytes
abbrev two_rented : MemoryPool
two_rented = record {
  ceil_quotient = ceil_quotient;
  pages = one_page ∷ one_page ∷ unused ∷ unused ∷ unused ∷ unused ∷ unused ∷ unused ∷ [];
  bytes_per_page = 64;
  next_alloc = 2;
  free_list = 4294967295;
}

two_rented_lem :
    rent_all 1 (memory_pool ceil_quotient 8 64) (40 ∷ 40 ∷ [])
    ≡ some ((0, 40) ∷ (1, 40) ∷ [], two_rented)
unfolding rent_all rent get_free_chunk find_free_list_chunk pages_of
two_rented_lem = refl

second_page-IsHeld : IsHeld two_rented 1 one_page
second_page-IsHeld = record { on_page = refl; is_memory = refl; one_reference = refl }

rent_all-Apart_example :
    (rs : List Region) × (q : MemoryPool) × (rent_all 1
        (memory_pool ceil_quotient 8 64)
        (40 ∷ 200 ∷ 9 ∷ [])
      ≡ some (rs, q))
    × Apart 64 512 rs
rent_all-Apart_example =
    rent_all-Apart ceil_quotient 0 8 64 (40 ∷ 200 ∷ 9 ∷ []) (λ a b small some_bytes few. refl)
      (omega arith) (omega arith) (omega arith, (omega arith, (omega arith, tt)))

rent_twice_example :
    (q : MemoryPool) × (q1 : MemoryPool) × (q2 : MemoryPool) × (release two_rented (handle 1 40)
      ≡ some (empty_handle, q))
    × (rent 5 q 30 ≡ some (some (handle 1 30, q1)))
    × (rent 5 q1 20 ≡ some (some (handle 1 20, q2)))
unfolding pages_of
rent_twice_example =
    rent_twice 4 two_rented 1 one_page 40 30 20 second_page-IsHeld (omega arith) (omega arith)
      (omega arith)

rent_loops_example :
    (q : MemoryPool) × (q1 : MemoryPool) × (release two_rented (handle 1 40)
      ≡ some (empty_handle, q))
    × (rent 5 q 30 ≡ some (some (handle 1 30, q1)))
    × (rent 1000000 q1 100 ≡ none)
unfolding pages_of
rent_loops_example =
    rent_loops 4 1000000 two_rented one_page 40 30 100 second_page-IsHeld (omega arith)
      (omega arith)
