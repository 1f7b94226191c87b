-- ===== src/Backoff/Tests.antt =====
-- The durations of include/txl/backoff.h at a concrete number of calls.
use libtxl.Prelude.{◌≡◌}
use libtxl.Backoff.Defs.{reset, upper_bound_mask, wait, wait_times}
use libtxl.Backoff.Growth.{wait-wait_times}

wait-wait_times_example : (wait upper_bound_mask (wait_times upper_bound_mask 3 reset)).0 ≡ 127
wait-wait_times_example = wait-wait_times 3
