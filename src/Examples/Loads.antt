-- ===== src/Examples/Loads.antt =====
-- Two pairs loaded into an empty page file, read and scanned, and a checkpoint of one logged write.
use zadodb.Prelude.{
  ℕ, ◌+◌, ◌≡◌, refl, arith, not, ◌&&◌, false, List, [], ◌∷◌, length, All, some, Bool,
}
use zadodb.Prelude.Dict.{find, put, remove}
use zadodb.Bytes.{Bytes, IsByte, bytes_lt, compare_bytes, put_be}
use zadodb.Bytes.Order.{bytes_eq}
use zadodb.Errors.{ok}
use zadodb.Wal.{WalEntry, flatten, key_of, object_key}
use zadodb.Page.Pager.{Manager}
use zadodb.Btree.{prefix_upper}
use zadodb.Btree.Store.{Extends}
use zadodb.Btree.Store.OnFile.{file_store, file_laws}
use zadodb.Btree.Overflow.{value_chunks, chunks}
use zadodb.Btree.Lookup.{below, get, scan}
use zadodb.Btree.Lookup.Prefix.{starts_with, below-prefix_upper}
use zadodb.Btree.Build.{bulk_load}
use zadodb.Btree.Build.Added.{Loadable}
use zadodb.Btree.Build.Found.{leaf_pages, get-bulk_load}
use zadodb.Btree.Build.Scanned.{scan_pairs, scan-bulk_load}
use zadodb.Recovery.Boot.{logged_none, logged_one}
use zadodb.Checkpoint.{
  Delta, put_deltas, sort_deltas, delta_of, emit, before, from, after, pair_at, merge, merge_build,
  parse_records,
}
use zadodb.Checkpoint.Built.{writes, newest, Writable, get-merge_build}
use zadodb.Checkpoint.Deltas.{net}
use zadodb.Examples.{adding, plain}
use zadodb.Examples.Pages.{empty_file}
use zadodb.Examples.Trees.{empty_valid, empty_room}
use zadodb.Examples.Boots.{write, bytes}
use zadodb.Examples.Merges.{base, base-Sorted}

below-prefix_upper_example :
    (not (bytes_lt (3 ∷ 9 ∷ []) (3 ∷ [])) && below (3 ∷ 9 ∷ []) (prefix_upper (3 ∷ [])))
    ≡ starts_with (3 ∷ []) (3 ∷ 9 ∷ [])
below-prefix_upper_example =
    below-prefix_upper (3 ∷ []) (3 ∷ 9 ∷ []) (omega arith, (omega arith, tt))

base-Loadable : All (Loadable (file_laws adding) 4) base
unfolding value_chunks chunks
base-Loadable =
    ((omega arith, omega arith, omega arith), ((omega arith, omega arith, omega arith), tt))

base_pages : leaf_pages base ≡ 4
unfolding value_chunks chunks
base_pages = refl

get-bulk_load_example :
    (root : ℕ) × (s : Manager) × (bulk_load (file_store adding) empty_file base ≡ ok (root, s))
    × Extends (file_laws adding) empty_file s
    × (get (file_store adding) 4 3 s root (5 ∷ []) ≡ ok (find (5 ∷ []) base))
get-bulk_load_example =
    get-bulk_load (file_laws adding) 4 empty_file base 3 (5 ∷ []) empty_valid base-Sorted
      base-Loadable (omega (arith, empty_room 13 (omega arith), base_pages)) (omega arith)

-- A callback that counts and stops at the second pair.
abbrev counting : ℕ → Bytes → Bytes → ℕ × Bool
counting n k v = (n + 1, false)

base-IsByte : All (λ kv. All IsByte kv.0) base
base-IsByte = ((omega arith, tt), ((omega arith, tt), tt))

scan-bulk_load_example :
    (root : ℕ) × (s : Manager) × (bulk_load (file_store adding) empty_file base ≡ ok (root, s))
    × (scan (file_store adding) 4 counting 3 s root [] 0 ≡ ok (scan_pairs counting [] base 0))
scan-bulk_load_example =
    scan-bulk_load (file_laws adding) 4 counting empty_file base 3 [] 0 empty_valid base-Sorted
      base-Loadable base-IsByte (omega (arith, empty_room 13 (omega arith), base_pages))
      (omega arith)

abbrev pub logged : List (ℕ × WalEntry)
logged = (5, write) ∷ []

abbrev writes_of : List (Bytes × Delta)
writes_of = put_deltas (writes logged) []

pub logged-Writable : All (Writable (file_laws adding) 4) (writes logged)
unfolding writes flatten key_of value_chunks chunks put_be object_key
logged-Writable =
    (((omega arith, omega arith, omega arith), (omega arith, omega arith, omega arith)), tt)

merged_pages : leaf_pages (merge base (sort_deltas writes_of)) ≡ 6
unfolding value_chunks chunks merge sort_deltas put_deltas writes flatten compare_bytes key_of
    object_key put_be emit before put remove pair_at from after delta_of
merged_pages = refl

merged_length : length (merge base (sort_deltas writes_of)) ≡ 3
unfolding merge sort_deltas put_deltas writes flatten compare_bytes key_of object_key put_be emit
    before put remove pair_at from after delta_of
merged_length = refl

get-merge_build_example :
    (parse_records plain 4 ((5, bytes) ∷ []) (record { deltas = []; last_applied = 4 })
      ≡ some (record { deltas = writes_of; last_applied = newest ((5, bytes) ∷ []) 4 }))
    × (root : ℕ) × (s : Manager) × (merge_build
          (file_store adding)
          empty_file
          base
          (sort_deltas writes_of)
        ≡ ok (root, s))
    × Extends (file_laws adding) empty_file s
    × (get (file_store adding) 4 5 s root (2 ∷ [])
        ≡ ok (net (writes logged) (λ k. find k base) (2 ∷ [])))
get-merge_build_example =
    get-merge_build (file_laws adding) 4 plain 4 ((5, bytes) ∷ []) logged empty_file base 5 (2 ∷ [])
      (logged_one 5 bytes write (omega arith) refl logged_none) empty_valid base-Sorted
      base-Loadable logged-Writable (omega (arith, empty_room 19 (omega arith), merged_pages))
      (omega (arith, merged_length))
