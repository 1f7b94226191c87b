-- ===== src/Find/Defs.antt =====
-- `stream_find` of include/txl/find.h. A `buffer_ref` is its bytes. Reading or writing outside of
-- the match or of the table has no defined result; here it gives `out_of_range`.
use libtxl.Prelude.{
  ℕ, zero, suc, ◌+◌, ◌-◌, ◌%◌, Bool, Option, none, some, List, [], ◌∷◌, Bytes, length, get_elem?,
  set, ltb, ◌==◌, if◌then◌else◌, size_mod,
}

pub record StreamFind : Type 0 where
  pub match_bytes : Bytes
  pub lps : List ℕ
  pub match_index : ℕ
  pub bytes_processed : ℕ

pub data Access (B : Type 0) : Type 0 where
  done : B → Access B
  out_of_range : Access B

abbrev pub is_matched : StreamFind → Bool
is_matched f = f.match_index == length f.match_bytes

abbrev pub reset : StreamFind → StreamFind
reset f = record f { match_index = 0; bytes_processed = 0 }

-- A round of the loop of `init_lps_table`
pub data Round : Type 0 where
  ended : Round
  moved : (last next : ℕ) → List ℕ → Round
  fault : Round

abbrev pub put : List ℕ → ℕ → ℕ → ℕ → ℕ → Round
put lps i v last next = if ltb i (length lps) then moved last next (set lps i v) else fault

abbrev pub lps_round : Bytes → ℕ → ℕ → List ℕ → Round
lps_round m last next lps =
    if ltb next (length m)
    then elim (get_elem? m last) [
      | none ↦ fault
      | some a ↦ elim (get_elem? m next) [
        | none ↦ fault
        | some b ↦
            if a == b
            then put lps next (last + 1) (last + 1) (next + 1)
            else if last == 0
            then put lps next 0 0 (next + 1)
            else elim (get_elem? lps (last - 1)) [ none ↦ fault | some l ↦ moved l next lps ]
      ]
    ]
    else ended

unfoldable pub init_lps_table : ℕ → Bytes → ℕ → ℕ → List ℕ → Option (Access (List ℕ))
init_lps_table zero m last next lps = none
init_lps_table (suc fuel) m last next lps = elim (lps_round m last next lps) [
  | ended ↦ some (done lps)
  | moved l n t ↦ init_lps_table fuel m l n t
  | fault ↦ some out_of_range
]

-- The constructor. `lps_{match.size(), 0}` is the list of these two values.
unfoldable pub stream_find : ℕ → Bytes → Option (Access StreamFind)
stream_find fuel m = elim (init_lps_table fuel m 0 1 (length m ∷ 0 ∷ [])) [
  | none ↦ none
  | some out_of_range ↦ some out_of_range
  | some (done t) ↦
      some (done (record { match_bytes = m; lps = t; match_index = 0; bytes_processed = 0 }))
]

-- A round of the loop of `process`, with the bytes that are left
pub data Pass : Type 0 where
  stopped : Pass
  going : StreamFind → Bytes → Pass
  bad : Pass

abbrev pub skip : StreamFind → ℕ → Bytes → Pass
skip f x xs =
    if f.match_index == 0
    then going (record f { bytes_processed = (f.bytes_processed + 1) % size_mod }) xs
    else going f (x ∷ xs)

abbrev pub fall_back : StreamFind → ℕ → Bytes → Pass
fall_back f x xs =
    if ltb 0 f.match_index
    then elim (get_elem? f.lps (f.match_index - 1)) [
      | none ↦ bad
      | some l ↦ skip (record f { match_index = l }) x xs
    ]
    else skip f x xs

abbrev pub find_round : StreamFind → Bytes → Pass
find_round f [] = stopped
find_round f (x ∷ xs) =
    if is_matched f then stopped else elim (get_elem? f.match_bytes f.match_index) [
      | none ↦ bad
      | some c ↦
          if x == c
          then going
              (record f {
                match_index = f.match_index + 1;
                bytes_processed = (f.bytes_processed + 1) % size_mod;
              })
              xs
          else fall_back f x xs
    ]

unfoldable pub process : ℕ → StreamFind → Bytes → Option (Access StreamFind)
process zero f src = none
process (suc fuel) f src = elim (find_round f src) [
  | stopped ↦ some (done f)
  | going g rest ↦ process fuel g rest
  | bad ↦ some out_of_range
]
