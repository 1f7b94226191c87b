-- ===== src/FlatMap/Tests.antt =====
-- Runs of include/txl/flat_map.h with the numbers as keys and as their own hash.
use libtxl.Prelude.{ℕ, ◌+◌, ◌≡◌, refl, false, none, some, [], ◌∷◌, ◌==◌, ==_iff, arith}
use libtxl.FlatMap.Defs.{Hash, FlatMap, emplace, find, linear_find}
use libtxl.FlatMap.Emplace.{find-emplace, emplace_dropped}

abbrev number_hash : Hash ℕ
number_hash = record { hash = λ k. k; same = λ a b. a == b; same_iff = ==_iff }

-- Five buckets, with the key 2 in its own: the key 7 has the same hash.
abbrev one_entry : FlatMap ℕ ℕ
one_entry = record { buckets = none ∷ none ∷ some (2, 20) ∷ none ∷ none ∷ []; size = 1 }

find-emplace_example :
    (m' : FlatMap ℕ ℕ) × (emplace number_hash one_entry 7 70 ≡ some m')
    × (m'.size ≡ 1 + 1)
    × (find number_hash m' 7 ≡ some (some (7, 70)))
    × ((k' : ℕ)
        → (7 == k') ≡ false
        → linear_find number_hash m'.buckets k' ≡ linear_find number_hash one_entry.buckets k')
find-emplace_example =
    find-emplace number_hash one_entry 7 70 1 3 ((2, 20), refl, refl, refl) (omega arith) refl refl
      (omega arith)

-- The default map, with an entry in each bucket
abbrev full_map : FlatMap ℕ ℕ
full_map = record {
  buckets =
      some (0, 0)
      ∷ some (1, 1)
      ∷ some (2, 2)
      ∷ some (3, 3)
      ∷ some (4, 4)
      ∷ some (5, 5)
      ∷ some (6, 6)
      ∷ some (7, 7)
      ∷ some (8, 8)
      ∷ some (9, 9)
      ∷ some (10, 10)
      ∷ some (11, 11)
      ∷ some (12, 12)
      ∷ some (13, 13)
      ∷ some (14, 14)
      ∷ some (15, 15)
      ∷ some (16, 16)
      ∷ [];
  size = 17;
}

emplace_dropped_example :
    (m' : FlatMap ℕ ℕ) × (emplace number_hash full_map 17 17 ≡ some m')
    × (m'.buckets ≡ full_map.buckets)
    × (m'.size ≡ 17 + 1)
    × (find number_hash m' 17 ≡ some none)
emplace_dropped_example =
    emplace_dropped number_hash full_map 17 17 16
      (
        (0, 0),
        refl,
        refl,
        (
          (1, 1),
          refl,
          refl,
          (
            (2, 2),
            refl,
            refl,
            (
              (3, 3),
              refl,
              refl,
              (
                (4, 4),
                refl,
                refl,
                (
                  (5, 5),
                  refl,
                  refl,
                  (
                    (6, 6),
                    refl,
                    refl,
                    (
                      (7, 7),
                      refl,
                      refl,
                      (
                        (8, 8),
                        refl,
                        refl,
                        (
                          (9, 9),
                          refl,
                          refl,
                          (
                            (10, 10),
                            refl,
                            refl,
                            (
                              (11, 11),
                              refl,
                              refl,
                              (
                                (12, 12),
                                refl,
                                refl,
                                (
                                  (13, 13),
                                  refl,
                                  refl,
                                  ((14, 14), refl, refl, ((15, 15), refl, refl, refl)),
                                ),
                              ),
                            ),
                          ),
                        ),
                      ),
                    ),
                  ),
                ),
              ),
            ),
          ),
        ),
      )
      refl (omega arith)
