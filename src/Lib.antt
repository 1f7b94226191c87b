-- ===== src/Lib.antt =====
-- A verification library for TXL, Todd's eXtension Library for C++: header-only components under
-- include/txl.
--
-- The parts and how they interact. `ring_buffer` keeps values in a memory mapping, with a head and
-- a tail that outlive the process. `reader` and `writer` (include/txl/io.h) are the interfaces of
-- everything that moves bytes; `copy_until` (include/txl/copy.h) reads one byte at a time from a
-- reader into a writer, and `parse_line` (include/txl/csv.h) runs its `splitter` as the
-- `lambda_writer` of that loop; `parse_document` calls `parse_line` until it reads nothing.
-- `tokenizer` and its token classes (include/txl/lexer.h) carry the `query_string_parser` of
-- include/txl/http.h, whose `hex_transformer` keeps its digits between the calls of a token.
-- `binary_search_tree` and `set` stand alone; the lexer's `in_set` asks a `set`. `fixed_vector`
-- keeps its values in `unsafe_storage` slots (include/txl/storage.h). `memory_pool`,
-- `atomic_linked_list`, `stream_find`, `flat_map`, `option_parser`, `btree`,
-- `work_list` and `fixed_string` use no other part.
--
-- The files:
--   Prelude: the shared names, Boolean tests, lists over the native numbers, and the interface
--     `Less` of a strict weak order that `tree.h` and `set.h` take as a template argument.
--   RingBuffer: include/txl/ring_buffer.h. Defs has `buffer_map` as `Ring`, and emplace (in its
--     three steps), read, clear, size, the constructor as reopen and the destructor as close.
--     Queue is the abstract queue; Inv, Refine and Run relate the two; Lifetime is about
--     the values destroyed; Size about the size and the reopening of a mapping, whose length comes
--     from the capacity that the second opening is given.
--   Io: include/txl/io.h, io_buffer.h, copy.h and the two cases of result.h. A reader is a state
--     with a `read_impl`; Copy is the loop of copy_until; Buffer the reader over a buffer.
--   Csv: include/txl/csv.h. Splitter is the state machine and string_view_splitter, Line parse_line,
--     Document row_view, document and parse_document. Cells describes the accepted rows; RoundTrip,
--     Table, View, Columns, Quoting and Rows prove.
--   Tree: include/txl/tree.h. Defs has find, emplace and remove on an inductive tree, in which a
--     `node_ptr` is a subtree; Inorder is the list it stands for; Order, Find and Remove prove.
--   BTree: include/txl/btree.h. Key is what it asks of its keys, Sorted the list of entries that it
--     stands for. Defs has the nodes, find and insert; Rebalance the rotations and merges; Remove
--     remove_from, steal_max and remove. Entries says how a tree is formed, Zipper names the children
--     in front of an index. Find, Split, Slots, Inserted and Insert prove the first two; Rotate,
--     RotateRight, Join, Parent and Balanced prove rebalance; Snoc, Stolen, Focus, Deeper,
--     RemovedMid, RemovedEnd and Removed prove remove_from; Root and RootRemove are about the tree,
--     Run about runs of calls on it.
--   Set: include/txl/set.h. Defs has the operations on the sorted vector; Bounds, Update, Search and
--     Algebra prove.
--   Lexer: include/txl/lexer.h. Cursor is the tokenizer, Tokens the token classes and the loops.
--   Http: include/txl/http.h. Hex is hex_transformer and the token of consume_tokens, Query the
--     query_string_parser, Request and Process http_1_1_parser. Encode describes the encoding;
--     Escape, Decode, Steps and Params prove the query round trip, Rounds, Headers and RoundTrip
--     that of a request.
--   DeltaVector: include/txl/delta_vector.h, for unsigned integers. Defs has the operations and the
--     walk of the iterator; Series proves.
--   Backoff: include/txl/backoff.h. Defs has wait and reset; Growth proves.
--   FixedVector: include/txl/fixed_vector.h. Defs has the operations on slots that hold a value or
--     none; a value that was moved out of is still one to destroy, and `move_backward` runs from
--     the end. erase is not modelled: it calls std::move_backward with a destination inside the
--     source range, which is undefined. Slots, Shift, Insert, Pop and Fill prove.
--   MemoryPool: include/txl/memory_pool.h. Defs has the pages, the free list and the allocation, in
--     which a pointer is a page number, and where an access out of the pool and fuel that ran out
--     end a rent differently; Handles has rent and release; Regions and Reuse prove.
--   LinkedList: include/txl/linked_list.h. Defs has one step for each access of a thread to shared
--     memory, and the states that any interleaving reaches. Frame and Invariant say who owns a node,
--     Moves, Exchanges and Preserve that each step keeps this; Stack and Freed prove.
--   Find: include/txl/find.h. Defs has the table of stream_find, its constructor and process;
--     Faults proves.
--   FlatMap: include/txl/flat_map.h. Defs has the buckets, emplace with its tries and the two
--     searches; the hash and the equality of keys are a parameter. `resize` has no definition: its
--     call is never reached. Probes and Emplace prove.
--   OptionParser: include/txl/option_parser.h. Defs has add_flag and parse, with `std::atoi` as a
--     parameter and the destinations as a store by flag; Parse proves.
--   WorkList: include/txl/work_list.h. Defs has the units, work_chain, inline_worker and the loop of
--     work_distributor; the virtual execute of a unit is a parameter, of which that of a lambda unit
--     is one. Chain and Distributor prove.
--   FixedString: include/txl/fixed_string.h. Defs has the operations on the characters as a list,
--     for both classes; View proves.
--   Each Tests file runs the component and applies its theorems at concrete inputs.
--
-- Bounds and fuel. `size_t` wraps at 2^64; a ring has fewer slots than that. `clear` of a ring runs
-- on the capacity, since each round goes one slot on. `copy_until`, `parse_document`,
-- `consume_while` and the query parser take fuel, and return `none` when it runs out; more
-- than one round for each byte, row or parameter is enough, and each theorem about them states how
-- much it needs. The search of the free list, `init_lps_table` and `process` of a search run on
-- fuel as well, and so does the loop of the distributor, which may read an empty optional
-- (`undefined`). The atomic list makes fewer than 2^64 exchanges, so that its counter never comes
-- back to an old value, and its accesses are sequentially consistent. The rounded-up `float`
-- division of a pool is a parameter; Regions asks of it to be the ceiling for numbers below 2^24,
-- which `float` holds exactly. A byte is a number; as an `int` the byte 255 is
-- -1, which the tokenizer takes for the end of the data. A b-tree has a degree of 3 or more: with
-- less, a split leaves a node without a value.
--
-- What is not modelled: allocation, the kernel's mappings and files, and iterators as pointers (an
-- iterator is a position); streams of characters are byte lists. The comparison of a tree or a set
-- is a parameter, with the laws of a strict weak order. The headers outside the list above have no
-- model here.
pub mod Prelude
pub mod BTree
pub mod Backoff
pub mod Csv
pub mod DeltaVector
pub mod Find
pub mod FixedString
pub mod FixedVector
pub mod FlatMap
pub mod Http
pub mod Io
pub mod Lexer
pub mod LinkedList
pub mod MemoryPool
pub mod OptionParser
pub mod RingBuffer
pub mod Set
pub mod Tree
pub mod WorkList
