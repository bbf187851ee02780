-- ===== src/Database/Checkpointed.antt =====
-- `Checkpoint` of internal/storage/engine.go on an engine and its directory: `checkpoint.Run`, the swap to
-- the new generation within it, and the pruning of the overlay. No other method runs meanwhile. What only
-- `Stats` reads, the active generation included, is left out.
use zadodb.Prelude.{ℕ, [], nat_eq}
use zadodb.Prelude.Dict.{find}
use zadodb.Bytes.{Bytes}
use zadodb.Bytes.Order.{bytes_eq}
use zadodb.Errors.{Result, ok, ◌>>=◌}
use zadodb.Wal.Codec.{Codec}
use zadodb.Wal.Log.{Crc}
use zadodb.Page.Pager.{open_file, read_meta}
use zadodb.Layout.{Dir, file_of}
use zadodb.Engine.{Engine}
use zadodb.Engine.Prune.{prune}
use zadodb.Checkpoint.Generation.{run, pairs_of}

module _ (codec : Codec) (crc : Crc) (fuel rounds : ℕ) where
  -- `Rotate` leaves the sequencer an empty log, and `SwapTo` maps the file of the new generation.
  unfoldable pub checkpoint : Engine → Dir → Result (Engine × Dir)
  checkpoint e d = do
    (gen, last, d') ← run codec crc fuel rounds d
    file ← file_of (find gen d'.data_files)
    mgr ← open_file crc file
    meta ← read_meta crc mgr
    kvs ← pairs_of crc fuel rounds mgr meta.root
    ok (
      record e { seq = record e.seq { log = [] }; overlay = prune last e.overlay; snapshot = kvs },
      d',
    )
