-- ===== src/Examples/Snapshots.antt =====
-- Readers and a swap on two snapshots, and reads of an empty data file.
use zadodb.Prelude.{
  update, ℕ, ◌*◌, ◌<◌, ◌≤◌, ◌^◌, ◌≡◌, refl, arith, nat_beq, if◌then◌else◌, true, false, [], length,
}
use zadodb.Prelude.Dict.{find}
use zadodb.Bytes.{Bytes}
use zadodb.Bytes.Order.{bytes_eq}
use zadodb.Errors.{ok}
use zadodb.Page.{invalid_page_id, page_size}
use zadodb.Page.Pager.{write_meta}
use zadodb.Btree.Store.MetaWrite.{create-HasMeta, length-write_meta}
use zadodb.Mvcc.{
  loaded, holding, resting, swapped, System, install, loads, swaps_in, reads, swaps, opened, Reach,
  start, later,
}
use zadodb.Mvcc.Current.{current-mapped}
use zadodb.Mvcc.Race.{held-unmapped}
use zadodb.Mvcc.Reads.{Snapshot, open_snapshot, snapshot_get, snapshot_get-Generation}
use zadodb.Recovery.Fresh.{no_pairs}
use zadodb.Checkpoint.DataFile.{Generation, finished}
use zadodb.Examples.{adding, plain}

-- Reader 3 has loaded the first snapshot, and the second is current.
abbrev replaced : System
replaced = record {
  shared = install opened.shared;
  readers = update opened.readers 3 (loaded 0);
  swapper = swapped 0;
}

replaced-Reach : Reach opened replaced
replaced-Reach = later (later start (reads 3 refl loads)) (swaps refl swaps_in)

current-mapped_example :
    (replaced.shared.mapped 1 ≡ true)
    × (replaced.shared.retired 1 ≡ false)
    × ((s : ℕ) → replaced.shared.retired s ≡ true → s < 1)
current-mapped_example = current-mapped replaced replaced-Reach

-- Reader 0 holds the current snapshot alone.
abbrev held_once : System
held_once = record {
  shared = record opened.shared { refs = λ s. if nat_beq s 0 then 1 else 0 };
  readers = update opened.readers 0 (holding 0);
  swapper = resting;
}

held-unmapped_example :
    (y : System) × Reach held_once y × (y.readers 1 ≡ holding 0) × (y.shared.mapped 0 ≡ false)
held-unmapped_example =
    held-unmapped held_once 0 1 (λ e. absurd (omega (arith, e))) refl refl refl refl

abbrev file : Bytes
file =
    let m = (create-HasMeta adding).0 in
    (write_meta adding m
      (record { root = invalid_page_id; last_applied = 0; pages = m.num_pages })).file

file-Generation : Generation plain adding 5 4 file [] 0
file-Generation =
    let (m, made, count, meta0, within) = create-HasMeta adding in
    finished plain adding 5 4 m [] invalid_page_id 0 meta0
      (no_pairs plain adding 5 4 (omega arith) m) (omega (arith, count)) (omega (arith, count))
      (omega arith) tt tt (omega arith)

file_short : length file < 2 ^ 62
file_short =
    let (m, made, count, meta0, within) = create-HasMeta adding in
    let le : length m.file ≤ 1 * page_size = omega (arith, within, count) in
    omega (
      arith,
      length-write_meta adding m
          (record { root = invalid_page_id; last_applied = 0; pages = m.num_pages }) 1 (omega arith)
          le,
    )

snapshot_get-Generation_example :
    (s : Snapshot) × (open_snapshot adding file ≡ ok s)
    × ((key : Bytes) → snapshot_get adding 5 4 s key ≡ ok (find key []))
snapshot_get-Generation_example =
    snapshot_get-Generation adding plain 5 4 file [] 0 file-Generation file_short
