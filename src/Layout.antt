-- ===== src/Layout.antt =====
-- internal/storage/layout/layout.go: the database directory. A data file has its generation for its
-- name, and CURRENT holds a number: the decimal text of both is in Layout/Names. A file is its bytes once
-- they are synced.
pub mod Names
use zadodb.Prelude.{ℕ, leb, if◌then◌else◌, Bool, Option, none, some, List, [], ◌∷◌}
use zadodb.Prelude.Dict.{Dict, remove}
use zadodb.Prelude.{nat_eq}
use zadodb.Bytes.{Bytes}
use zadodb.Errors.{Result, ok, err, no_file}

pub record Dir : Type 0 where
  -- data.NNNNNN.zdb, and data.NNNNNN.zdb.tmp
  pub data_files : Dict ℕ Bytes
  pub temps : Dict ℕ Bytes
  pub current : Option ℕ
  -- wal.log and wal.applying.log
  pub wal : Option Bytes
  pub retired : Option Bytes

abbrev pub file_of : Option Bytes → Result Bytes
file_of none = err no_file
file_of (some f) = ok f

abbrev pub read_current : Dir → Option ℕ
read_current d = d.current

-- A missing CURRENT is an error where a generation is needed.
abbrev pub current_of : Option ℕ → Result ℕ
current_of none = err no_file
current_of (some gen) = ok gen

abbrev pub write_current : Dir → ℕ → Dir
write_current d gen = record d { current = some gen }

-- `sort.Slice` of the generations.
insert_gen : ℕ → List ℕ → List ℕ
insert_gen g [] = g ∷ []
insert_gen g (h ∷ hs) = let rest = insert_gen g hs in if leb g h then g ∷ h ∷ hs else h ∷ rest

unfoldable pub sort_gens : Dict ℕ Bytes → List ℕ
unfolding insert_gen
sort_gens [] = []
sort_gens ((g, f) ∷ m) = insert_gen g (sort_gens m)

pub list_generations : Dir → List ℕ
list_generations d = sort_gens d.data_files

-- The loop of `removeGenerationsAbove` and of `cleanupOldGenerations`: remove those that `test` picks.
unfoldable pub remove_gens : (ℕ → Bool) → List ℕ → Dict ℕ Bytes → Dict ℕ Bytes
remove_gens test [] m = m
remove_gens test (g ∷ gs) m = remove_gens test gs (if test g then remove g m else m)

unfoldable pub remove_generations : (ℕ → Bool) → Dir → Dir
remove_generations test d = record d {
  data_files = remove_gens test (list_generations d) d.data_files;
}
