-- ===== src/Examples/Settings.antt =====
-- Settings that wrap, and an entry applied to a tree.
use zadodb.Prelude.{ℕ, ◌≡◌, refl, arith, some, [], ◌∷◌}
use zadodb.Prelude.Int.{pos, negsuc}
use zadodb.Bytes.{compare_bytes}
use zadodb.Layout.Names.{
  generation, panicked, generation_of, data_name, parse_current, current_text, ends_with,
  generation_texts,
}
use zadodb.Errors.{ok}
use zadodb.Wal.{flatten, key_of}
use zadodb.Wal.Fsync.{group_commit_text}
use zadodb.Page.{invalid_page_id}
use zadodb.Page.Pager.{Manager}
use zadodb.Btree.{LeafEntry, leaf}
use zadodb.Btree.Overflow.{make_leaf_entry}
use zadodb.Btree.Store.{put_node}
use zadodb.Btree.Store.OnFile.{file_store}
use zadodb.Btree.Tree.{insert}
use zadodb.Apply.{apply_entry_to, one, apply_all}
use zadodb.Config.{
  Config, Runnable, with_defaults, storage_config, default_config, with_defaults-Runnable,
}
use zadodb.Examples.{adding}
use zadodb.Examples.Boots.{write}
use zadodb.Examples.Pages.{empty_file}

abbrev wild : Config
wild = record default_config {
  fsync = group_commit_text;
  interval_ms = negsuc 4;
  max_batch = pos 0;
  interval_sec = pos 9223372037;
}

with_defaults-Runnable_example : Runnable (with_defaults (storage_config wild))
with_defaults-Runnable_example = with_defaults-Runnable wild

abbrev entry : LeafEntry × Manager
entry = make_leaf_entry (file_store adding) empty_file (key_of write) (9 ∷ [])

abbrev applied : ℕ × Manager
applied = put_node (file_store adding) entry.1 (leaf (entry.0 ∷ []))

apply_runs : apply_entry_to (file_store adding) 5 empty_file invalid_page_id write ≡ ok applied
unfolding apply_entry_to apply_all one flatten insert
apply_runs = refl

generation_texts_example :
    (generation_of (data_name 42) ≡ generation 42) × (parse_current (current_text 42) ≡ some 42)
generation_texts_example = generation_texts 42 (omega arith)

-- A directory entry named data.zdb: prefix and suffix overlap.
overlap : generation_of (b'd' ∷ b'a' ∷ b't' ∷ b'a' ∷ b'.' ∷ b'z' ∷ b'd' ∷ b'b' ∷ []) ≡ panicked
unfolding generation_of ends_with compare_bytes
overlap = refl
