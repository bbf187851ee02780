-- ===== src/Btree/Encode.antt =====
-- internal/storage/btree/encode.go: nodes as pages. The texts of the errors are not told apart.
pub mod RoundTrip
use zadodb.Prelude.{ℕ, zero, suc, ◌+◌, ltb, nat_beq, if◌then◌else◌}
use zadodb.Prelude.{List, [], ◌∷◌, ◌++◌, length, take, drop}
use zadodb.Bytes.{Bytes, put_le, get_le}
use zadodb.Errors.{Result, ok, err, truncated, not_a_node, ◌>>=◌}
use zadodb.Page.{Page, new, set_body, set_payload_len, type_of, payload}
use zadodb.Page.{page_type_btree_leaf, page_type_btree_internal}
use zadodb.Btree.{LeafEntry, EntryValue, inline, overflow, Node, leaf, internal}

abbrev pub flag_inline : ℕ
flag_inline = 0

abbrev pub flag_overflow : ℕ
flag_overflow = 1

encode_value : EntryValue → Bytes
encode_value (overflow head size) = flag_overflow ∷ (put_le 8 head ++ put_le 8 size)
encode_value (inline v) = flag_inline ∷ (put_le 4 (length v) ++ v)

encode_entries : List LeafEntry → Bytes
encode_entries [] = []
encode_entries (e ∷ es) =
    put_le 2 (length e.key) ++ (e.key ++ (encode_value e.value ++ encode_entries es))

-- Go panics where there are fewer children than separators; no node of the tree is so.
encode_seps : List Bytes → List ℕ → Bytes
encode_seps [] cs = []
encode_seps (k ∷ ks) [] = []
encode_seps (k ∷ ks) (c ∷ cs) = put_le 2 (length k) ++ (k ++ (put_le 8 c ++ encode_seps ks cs))

first_child : List ℕ → Bytes
first_child [] = []
first_child (c ∷ cs) = put_le 8 c

pub encode_body : Node → Bytes
encode_body (leaf es) = put_le 2 (length es) ++ encode_entries es
encode_body (internal ks cs) =
    put_le 2 (length ks) ++ (first_child cs ++ encode_seps ks (drop 1 cs))

abbrev pub node_type : Node → ℕ
node_type (leaf es) = page_type_btree_leaf
node_type (internal ks cs) = page_type_btree_internal

pub encode_to : Node → ℕ → Page
encode_to n id =
    set_payload_len (set_body (new id (node_type n)) 0 (encode_body n)) (length (encode_body n))

-- The next `n` bytes, and the next `n`-byte number, of what is left of a body.
read_bytes : ℕ → Bytes → Result (Bytes × Bytes)
read_bytes n bs = if ltb (length bs) n then err truncated else ok (take n bs, drop n bs)

read_le : ℕ → Bytes → Result (ℕ × Bytes)
read_le n bs = do (b, rest) ← read_bytes n bs; ok (get_le b, rest)

decode_value : ℕ → Bytes → Result (EntryValue × Bytes)
decode_value flag bs =
    if nat_beq flag flag_overflow
    then (do (head, r1) ← read_le 8 bs; (size, r2) ← read_le 8 r1; ok (overflow head size, r2))
    else do (vl, r1) ← read_le 4 bs; (v, r2) ← read_bytes vl r1; ok (inline v, r2)

decode_entries : ℕ → Bytes → Result (List LeafEntry)
decode_entries zero bs = ok []
decode_entries (suc n) bs = do
  (kl, r1) ← read_le 2 bs
  (k, r2) ← read_bytes kl r1
  (flag, r3) ← read_le 1 r2
  (v, r4) ← decode_value flag r3
  es ← decode_entries n r4
  ok (record { key = k; value = v } ∷ es)

decode_leaf : Bytes → Result Node
decode_leaf bs = do (num, r) ← read_le 2 bs; es ← decode_entries num r; ok (leaf es)

decode_seps : ℕ → Bytes → Result (List Bytes × List ℕ)
decode_seps zero bs = ok ([], [])
decode_seps (suc n) bs = do
  (kl, r1) ← read_le 2 bs
  (k, r2) ← read_bytes kl r1
  (c, r3) ← read_le 8 r2
  (ks, cs) ← decode_seps n r3
  ok (k ∷ ks, c ∷ cs)

decode_internal : Bytes → Result Node
decode_internal bs = do
  (num, r1) ← read_le 2 bs
  (c, r2) ← read_le 8 r1
  (ks, cs) ← decode_seps num r2
  ok (internal ks (c ∷ cs))

pub decode_node : Page → Result Node
decode_node p =
    if nat_beq (type_of p) page_type_btree_leaf
    then decode_leaf (payload p)
    else if nat_beq (type_of p) page_type_btree_internal
    then decode_internal (payload p)
    else err not_a_node
