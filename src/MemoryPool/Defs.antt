-- ===== src/MemoryPool/Defs.antt =====
-- The pool of include/txl/memory_pool.h. A pointer into the pool is the number of the page that it
-- points to; the mutex makes each operation one step.
use libtxl.Prelude.{
  ℕ, zero, suc, ◌+◌, ◌-◌, ◌%◌, ◌^◌, Bool, true, false, Option, none, some, List, if◌then◌else◌,
  ◌==◌, ltb, leb, get_elem?, set, length, replicate, size_mod,
}

abbrev pub mem_chunk : ℕ
mem_chunk = 1

abbrev pub free_chunk : ℕ
free_chunk = 2

abbrev pub no_chunk : ℕ
no_chunk = 2 ^ 32 - 1

-- `mempool_chunk_header`: `word` is the union of `next_chunk` and `num_references`.
pub record ChunkHeader : Type 0 where
  pub word : ℕ
  pub num_pages : ℕ
  pub kind : ℕ

-- `sizeof(mempool_chunk_header)`
abbrev pub header_size : ℕ
header_size = 12

-- The bytes at the start of each page, read as a header. `ceil_quotient` is no member, but what the
-- platform's `std::ceil` gives for a quotient that is taken in `float`.
pub record MemoryPool : Type 0 where
  pub ceil_quotient : ℕ → ℕ → ℕ
  pub pages : List ChunkHeader
  pub bytes_per_page : ℕ
  pub next_alloc : ℕ
  pub free_list : ℕ

abbrev pub memory_pool : (ℕ → ℕ → ℕ) → ℕ → ℕ → MemoryPool
memory_pool ceil_quotient num_pages bytes_per_page = record {
  ceil_quotient = ceil_quotient;
  pages = replicate num_pages (record { word = 0; num_pages = 0; kind = 0 });
  bytes_per_page = bytes_per_page;
  next_alloc = 0;
  free_list = no_chunk;
}

abbrev pub get_page : MemoryPool → ℕ → Option ChunkHeader
get_page p id = get_elem? p.pages id

unfoldable pub pages_of : MemoryPool → ℕ → ℕ
pages_of p num_bytes =
    p.ceil_quotient ((num_bytes + header_size) % size_mod) p.bytes_per_page % 2 ^ 32

-- What the search returns: a page, `nullptr`, or a read out of the pool.
pub data Search : Type 0 where
  found : ℕ → Search
  missing : Search
  fault : Search

-- `find_free_list_chunk` from a page identifier on, with fuel; `none` means that the fuel ran out.
unfoldable pub find_free_list_chunk : ℕ → MemoryPool → ℕ → ℕ → Option Search
find_free_list_chunk zero p size_pages id = none
find_free_list_chunk (suc f) p size_pages id =
    let h = get_page p id in
    let later : Option Search = elim h [
      | none ↦ some fault
      | some c ↦ find_free_list_chunk f p size_pages c.word
    ] in
    if id == no_chunk then some missing else elim h [
      | none ↦ some fault
      | some c ↦ if leb size_pages c.num_pages then some (found id) else later
    ]

-- What `get_free_chunk` returns: a chunk or `nullptr`, and the pool; or a fault.
pub data Chunk : Type 0 where
  chunk : ℕ → MemoryPool → Chunk
  out_of_memory : MemoryPool → Chunk
  bad_access : Chunk

-- A chunk of the free list is given out again: its header is set, and the list is not.
abbrev pub reuse : MemoryPool → ℕ → Chunk
reuse p id = elim (get_page p id) [
  | none ↦ bad_access
  | some c ↦
      chunk id (record p { pages = set p.pages id (record c { word = 1; kind = mem_chunk }) })
]

-- A chunk from the pages that were never used
abbrev pub fresh_chunk : MemoryPool → ℕ → Chunk
fresh_chunk p n =
    if ltb (length p.pages) (p.next_alloc + n)
    then out_of_memory p
    else chunk p.next_alloc (record p {
      pages = set p.pages p.next_alloc (record { word = 1; num_pages = n; kind = mem_chunk });
      next_alloc = p.next_alloc + n;
    })

unfoldable pub get_free_chunk : ℕ → MemoryPool → ℕ → Option Chunk
get_free_chunk fuel p num_bytes =
    elim (find_free_list_chunk fuel p (pages_of p num_bytes) p.free_list) [
      | none ↦ none
      | some missing ↦ some (fresh_chunk p (pages_of p num_bytes))
      | some fault ↦ some bad_access
      | some (found id) ↦ some (reuse p id)
    ]

-- `inc_ref` and `dec_ref`: `none` is an access out of the pool.
unfoldable pub inc_ref : MemoryPool → ℕ → Option (Bool × MemoryPool)
inc_ref p id = elim (get_page p id) [
  | none ↦ none
  | some c ↦
      if c.kind == mem_chunk
      then some
          (true, record p { pages = set p.pages id (record c { word = (c.word + 1) % 2 ^ 32 }) })
      else some (false, p)
]

abbrev freed : MemoryPool → ℕ → ChunkHeader → MemoryPool
freed p id c = record p {
  pages = set p.pages id (record c { word = p.free_list; kind = free_chunk });
  free_list = id;
}

unfoldable pub dec_ref : MemoryPool → ℕ → Option (Bool × MemoryPool)
dec_ref p id = elim (get_page p id) [
  | none ↦ none
  | some c ↦
      let refs = (c.word + 2 ^ 32 - 1) % 2 ^ 32 in
      if c.kind == mem_chunk
      then some (
        true,
        if refs == 0
            then freed p id c
            else record p { pages = set p.pages id (record c { word = refs }) },
      )
      else some (false, p)
]
