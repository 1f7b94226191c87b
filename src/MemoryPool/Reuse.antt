-- ===== src/MemoryPool/Reuse.antt =====
-- Chunks of include/txl/memory_pool.h that are given out again.
use libtxl.Prelude.{
  ℕ, zero, suc, ◌≤◌, ◌<◌, ◌≡◌, ◌≢◌, refl, ap, ◌∙◌, true, false, none, some, List, [], ◌∷◌, ◌==◌,
  leb, get_elem?, set, arith,
}
use libtxl.MemoryPool.Defs.{
  MemoryPool, ChunkHeader, no_chunk, mem_chunk, free_chunk, get_page, pages_of,
  find_free_list_chunk, found, get_free_chunk, dec_ref,
}
use libtxl.MemoryPool.Handles.{Handle, empty_handle, rent, release}

get_elem?-set :
    {A : Type 0} (xs : List A) (i : ℕ) (c v : A)
    → get_elem? xs i ≡ some c
    → get_elem? (set xs i v) i ≡ some v
get_elem?-set [] i c v h = cc
get_elem?-set (x ∷ xs) zero c v h = refl
get_elem?-set (x ∷ xs) (suc i) c v h = get_elem?-set xs i c v h

-- The page `id` of a pool, with its header `c`, a chunk that one reference holds
pub record IsHeld (p : MemoryPool) (id : ℕ) (c : ChunkHeader) : Type 0 where
  pub on_page : get_page p id ≡ some c
  pub is_memory : c.kind ≡ mem_chunk
  pub one_reference : c.word ≡ 1

abbrev pub handle : ℕ → ℕ → Handle
handle id n = record { page = some id; size = n }

-- The pool behind the release of that chunk, and behind its reuse
abbrev released : MemoryPool → ℕ → ChunkHeader → MemoryPool
released p id c = record p {
  pages = set p.pages id (record c { word = p.free_list; kind = free_chunk });
  free_list = id;
}

abbrev reused : MemoryPool → ℕ → ChunkHeader → MemoryPool
reused p id c = record p { pages = set p.pages id (record c { word = 1; kind = mem_chunk }) }

release-released :
    (p : MemoryPool) (id : ℕ) (c : ChunkHeader) (n : ℕ)
    → IsHeld p id c
    → release p (handle id n) ≡ some (empty_handle, released p id c)
unfolding release dec_ref
release-released p id c n h = rw (release, dec_ref, h.on_page, h.is_memory, h.one_reference) refl

not_end : (id : ℕ) → id ≢ no_chunk → (id == no_chunk) ≡ false
not_end id h = ground arith

find-found :
    (f : ℕ) (p : MemoryPool) (id : ℕ) (c : ChunkHeader) (n : ℕ)
    → get_page p id ≡ some c
    → id ≢ no_chunk
    → n ≤ c.num_pages
    → find_free_list_chunk (suc f) p n id ≡ some (found id)
unfolding find_free_list_chunk
find-found f p id c n on_page valid room =
    let room' : leb n c.num_pages ≡ true = ground arith in
    rw (find_free_list_chunk, not_end id valid, on_page, room') refl

-- A rent that the first chunk of the free list has room for
rent-reused :
    (f : ℕ) (p : MemoryPool) (id : ℕ) (c : ChunkHeader) (n : ℕ)
    → p.free_list ≡ id
    → get_page p id ≡ some c
    → id ≢ no_chunk
    → pages_of p n ≤ c.num_pages
    → rent (suc f) p n ≡ some (some (handle id n, reused p id c))
unfolding rent get_free_chunk
rent-reused f p id c n first on_page valid room =
    let search =
      ap (find_free_list_chunk (suc f) p (pages_of p n)) first
      ∙ find-found f p id c (pages_of p n) on_page valid room in
    rw (rent, get_free_chunk, search, on_page) refl

-- A chunk with one reference, released and then rented twice, each time for no more pages than it
-- has: all three calls succeed, and both rents give the same chunk, which is then given out twice at
-- once. The chunk's page is not the one that stands for no chunk.
pub rent_twice :
    (f : ℕ) (p : MemoryPool) (id : ℕ) (c : ChunkHeader) (n n1 n2 : ℕ)
    → IsHeld p id c
    → id ≢ no_chunk
    → pages_of p n1 ≤ c.num_pages
    → pages_of p n2 ≤ c.num_pages
    → (q : MemoryPool) × (q1 : MemoryPool) × (q2 : MemoryPool) × (release p (handle id n)
        ≡ some (empty_handle, q))
      × (rent (suc f) q n1 ≡ some (some (handle id n1, q1)))
      × (rent (suc f) q1 n2 ≡ some (some (handle id n2, q2)))
unfolding pages_of
rent_twice f p id c n n1 n2 h valid room1 room2 =
    let c' : ChunkHeader = record c { word = p.free_list; kind = free_chunk } in
    let q = released p id c in
    let on_page : get_page q id ≡ some c' = get_elem?-set p.pages id c c' h.on_page in
    let c1 : ChunkHeader = record c' { word = 1; kind = mem_chunk } in
    let q1 = reused q id c' in
    let on_page1 : get_page q1 id ≡ some c1 = get_elem?-set q.pages id c' c1 on_page in
    (
      q,
      q1,
      reused q1 id c1,
      release-released p id c n h,
      rent-reused f q id c' n1 refl on_page valid room1,
      rent-reused f q1 id c1 n2 refl on_page1 valid room2,
    )

-- A list that leads from the page to itself, with too few pages there
find_loops :
    (f : ℕ) (p : MemoryPool) (id : ℕ) (c : ChunkHeader) (n : ℕ)
    → get_page p id ≡ some c
    → id ≢ no_chunk
    → c.word ≡ id
    → c.num_pages < n
    → find_free_list_chunk f p n id ≡ none
unfolding find_free_list_chunk
find_loops zero p id c n on_page valid itself small = refl
find_loops (suc f) p id c n on_page valid itself small =
    let small' : leb n c.num_pages ≡ false = ground arith in
    rw (find_free_list_chunk, not_end id valid, on_page, small', on_page, itself)
      (find_loops f p id c n on_page valid itself small)

-- A chunk at page 1 with one reference, released and rented again for no more pages than it has:
-- a rent for more pages than that then never returns: its search runs out of any fuel, and makes no
-- access out of the pool, since the header of the chunk, which the list still begins with, names
-- page 1 as the next one.
pub rent_loops :
    (f fuel : ℕ) (p : MemoryPool) (c : ChunkHeader) (n n1 n2 : ℕ)
    → IsHeld p 1 c
    → pages_of p n1 ≤ c.num_pages
    → c.num_pages < pages_of p n2
    → (q : MemoryPool) × (q1 : MemoryPool) × (release p (handle 1 n) ≡ some (empty_handle, q))
      × (rent (suc f) q n1 ≡ some (some (handle 1 n1, q1)))
      × (rent fuel q1 n2 ≡ none)
unfolding rent get_free_chunk pages_of
rent_loops f fuel p c n n1 n2 h room small =
    let c' : ChunkHeader = record c { word = p.free_list; kind = free_chunk } in
    let q = released p 1 c in
    let on_page : get_page q 1 ≡ some c' = get_elem?-set p.pages 1 c c' h.on_page in
    let c1 : ChunkHeader = record c' { word = 1; kind = mem_chunk } in
    let q1 = reused q 1 c' in
    let on_page1 : get_page q1 1 ≡ some c1 = get_elem?-set q.pages 1 c' c1 on_page in
    let valid : 1 ≢ no_chunk = omega arith in
    (
      q,
      q1,
      release-released p 1 c n h,
      rent-reused f q 1 c' n1 refl on_page valid room,
      rw (rent, get_free_chunk, find_loops fuel q1 1 c1 (pages_of q1 n2) on_page1 valid refl small)
          refl,
    )
