-- ===== src/Find/Tests.antt =====
-- Runs of include/txl/find.h.
use libtxl.Prelude.{◌≡◌, true, some, [], ◌∷◌, arith}
use libtxl.Find.Defs.{StreamFind, done, out_of_range, stream_find, process, is_matched}
use libtxl.Find.Faults.{stream_find_out_of_range, process_false_match}

stream_find_out_of_range_example : stream_find 3 (1 ∷ 2 ∷ 3 ∷ []) ≡ some out_of_range
stream_find_out_of_range_example =
    stream_find_out_of_range (1 ∷ 2 ∷ 3 ∷ []) 3 (omega arith) (omega arith)

process_false_match_example :
    (f g : StreamFind) × (stream_find 5 (1 ∷ 2 ∷ []) ≡ some (done f))
    × (process 5 f (1 ∷ 9 ∷ 1 ∷ 2 ∷ []) ≡ some (done g))
    × (is_matched g ≡ true)
    × (g.bytes_processed ≡ 1)
process_false_match_example =
    process_false_match 1 2 9 (1 ∷ 2 ∷ []) 5 (λ e. omega (arith, e)) (omega arith)
