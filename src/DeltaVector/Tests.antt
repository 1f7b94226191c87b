-- ===== src/DeltaVector/Tests.antt =====
-- A vector of include/txl/delta_vector.h with bases of 16 bits and differences of 8.
use libtxl.Prelude.{◌≡◌, refl, [], ◌∷◌, arith}
use libtxl.DeltaVector.Defs.{
  delta_vector, push_back, push_back_delta, push_all, values, values_from,
}
use libtxl.DeltaVector.Series.{values-push_all}

values-push_all_example :
    values 65536 256 (push_all 65536 256 (delta_vector 65536 256 1000) (1200 ∷ 1200 ∷ 1455 ∷ []))
    ≡ 1000 ∷ 1200 ∷ 1200 ∷ 1455 ∷ []
values-push_all_example =
    values-push_all 65536 256 1000 (1200 ∷ 1200 ∷ 1455 ∷ []) (omega arith) (ground arith)

-- A difference of 256 is lost.
lost_difference :
    values 65536 256 (push_all 65536 256 (delta_vector 65536 256 1000) (1256 ∷ []))
    ≡ 1000 ∷ 1000 ∷ []
unfolding push_all delta_vector push_back push_back_delta values values_from
lost_difference = refl
