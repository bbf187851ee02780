-- ===== src/Examples/Trees.antt =====
-- The tree over the page file, at a tree of one leaf.
use zadodb.Prelude.{ℕ, ◌+◌, ◌<◌, ◌^◌, ◌≡◌, refl, arith, [], ◌∷◌, length, true}
use zadodb.Bytes.{Bytes, compare_bytes}
use zadodb.Errors.{ok}
use zadodb.Page.{invalid_page_id}
use zadodb.Page.Pager.{Manager}
use zadodb.Btree.{LeafEntry, Node, leaf, inline, leaf_search, fits, encoded_size}
use zadodb.Btree.Encode.{encode_to, decode_node}
use zadodb.Btree.Encode.RoundTrip.{IsNode, decode_node-encode_to}
use zadodb.Btree.Store.{load, put_node, Extends, Extends-refl, put_node_lem}
use zadodb.Btree.Store.OnFile.{file_store, file_laws, Valid_file, next_file}
use zadodb.Btree.Overflow.{write_overflow, read_overflow, value_chunks, chunks, make_leaf_entry}
use zadodb.Btree.Overflow.RoundTrip.{read_overflow-write_overflow, write_overflow_lem}
use zadodb.Btree.Lookup.{get}
use zadodb.Btree.Lookup.Shape.{tree_leaf, find_entry}
use zadodb.Btree.Lookup.Found.{answer, get-Tree}
use zadodb.Btree.Tree.{insert, delete, delete_loop, delete_node, delete_entry}
use zadodb.Btree.Tree.CopyOnWrite.{insert-Extends, insert_pages}
use zadodb.Examples.{adding}
use zadodb.Examples.Pages.{empty_file}

abbrev entry : LeafEntry
entry = record { key = 3 ∷ []; value = inline (9 ∷ []) }

abbrev one_leaf : Node
one_leaf = leaf (entry ∷ [])

one_leaf-IsNode : IsNode one_leaf
one_leaf-IsNode = (tt, tt)

fits-one_leaf : fits one_leaf ≡ true
unfolding fits encoded_size
fits-one_leaf = refl

decode_node-encode_to_example : decode_node (encode_to one_leaf 1) ≡ ok one_leaf
decode_node-encode_to_example =
    decode_node-encode_to one_leaf 1 one_leaf-IsNode fits-one_leaf (omega arith)

pub empty_valid : (file_laws adding).Valid empty_file
empty_valid = Valid_file adding empty_file (omega arith)

pub empty_room : (n : ℕ) → n < 2 ^ 63 → (file_laws adding).next empty_file + n < 2 ^ 64
empty_room n h = rw (next_file adding empty_file) (omega arith)

abbrev leaf_file : Manager
leaf_file = (put_node (file_store adding) empty_file one_leaf).1

leaf_file_lem :
    ((put_node (file_store adding) empty_file one_leaf).0 ≡ (file_laws adding).next empty_file)
    × (load (file_store adding) leaf_file ((file_laws adding).next empty_file) ≡ ok one_leaf)
    × Extends (file_laws adding) empty_file leaf_file
    × ((file_laws adding).next leaf_file ≡ (file_laws adding).next empty_file + 1)
leaf_file_lem =
    put_node_lem (file_laws adding) empty_file one_leaf empty_valid
      (omega (arith, empty_room 0 (omega arith))) one_leaf-IsNode fits-one_leaf

load-leaf_file : load (file_store adding) leaf_file 1 ≡ ok one_leaf
load-leaf_file = rw (← next_file adding empty_file) (leaf_file_lem.1)

get-Tree_example :
    get (file_store adding) 10 5 leaf_file 1 (3 ∷ [])
    ≡ answer (file_store adding) 10 leaf_file (find_entry (entry ∷ []) (3 ∷ []))
get-Tree_example =
    get-Tree (file_store adding) 10 leaf_file 5 (3 ∷ []) (omega arith) (omega arith)
      (tree_leaf load-leaf_file (tt, tt))

abbrev value : Bytes
value = 1 ∷ 2 ∷ 3 ∷ []

one_chunk : length (value_chunks value) ≡ 1
unfolding value_chunks chunks
one_chunk = refl

abbrev spilled : Manager
spilled = (write_overflow (file_store adding) empty_file value).2

spilled-Extends : Extends (file_laws adding) spilled spilled
spilled-Extends =
    let x =
      (write_overflow_lem (file_laws adding) empty_file value empty_valid
        (empty_room (length (value_chunks value)) (omega (arith, one_chunk)))).later in
    Extends-refl (file_laws adding) spilled x.valid

read_overflow-write_overflow_example :
    read_overflow
      (file_store adding)
      4
      spilled
      (write_overflow (file_store adding) empty_file value).0
    ≡ ok value
read_overflow-write_overflow_example =
    read_overflow-write_overflow (file_laws adding) empty_file spilled value 4 empty_valid
      (empty_room (length (value_chunks value)) (omega (arith, one_chunk))) spilled-Extends
      (omega (arith, one_chunk))

abbrev made : LeafEntry × Manager
made = make_leaf_entry (file_store adding) empty_file (3 ∷ []) value

abbrev inserted : ℕ × Manager
inserted = put_node (file_store adding) made.1 (leaf (made.0 ∷ []))

insert-Extends_example : Extends (file_laws adding) empty_file inserted.1
insert-Extends_example =
    insert-Extends (file_laws adding) 5 empty_file invalid_page_id (3 ∷ []) value inserted
      empty_valid (empty_room (insert_pages (file_laws adding) 5 value) (omega (arith, one_chunk)))
      (unfold insert in refl)

abbrev emptied : ℕ × Manager
emptied = put_node (file_store adding) leaf_file (leaf [])

delete_runs : delete (file_store adding) 5 leaf_file 1 (3 ∷ []) ≡ ok emptied
unfolding delete delete_loop delete_node delete_entry leaf_search compare_bytes
delete_runs = rw load-leaf_file refl
