-- ===== src/Btree/Encode/RoundTrip.antt =====
-- A node that fits its page is read back from it.
use zadodb.Prelude.{ℕ, suc, ◌+◌, ◌^◌, ◌<◌, ◌≤◌}
use zadodb.Prelude.{
  nat_beq, false, leb→le, ◌≡◌, refl, sym, ap, ◌∙◌, arith, append_assoc, append-nil, true, All,
}
use zadodb.Prelude.{List, [], ◌∷◌, ◌++◌, length, length-append, take_append, drop_append}
use zadodb.Bytes.{Bytes, put_le, get_le}
use zadodb.Bytes.Endian.{length-put_le, get_le-put_le}
use zadodb.Errors.{ok}
use zadodb.Page.{Page, page_id, body_size, new, type_of, payload, page_type_meta}
use zadodb.Page.Fields.{IsPage}
use zadodb.Page.Contents.{
  page_with-IsPage, page_with_fields, page_id-set_payload_len, page_id-set_body, page_id-new,
}
use zadodb.Btree.{LeafEntry, EntryValue, inline, overflow, Node, leaf, internal}
use zadodb.Btree.{entry_size, entries_size, seps_size, encoded_size, fits}
use zadodb.Btree.Encode.{
  encode_value, encode_entries, encode_seps, first_child, encode_body, node_type, encode_to,
}
use zadodb.Btree.Encode.{read_bytes, read_le, decode_value, decode_entries, decode_leaf}
use zadodb.Btree.Encode.{decode_seps, decode_internal, decode_node, flag_inline, flag_overflow}

-- Page ids and sizes are uint64, and an internal node has one child more than separators.
abbrev pub IsValue : EntryValue → Type 0
IsValue (inline v) = Unit
IsValue (overflow head size) = (head < 2 ^ 64) × (size < 2 ^ 64)

abbrev pub IsEntry : LeafEntry → Type 0
IsEntry e = IsValue e.value

abbrev pub IsNode : Node → Type 0
IsNode (leaf es) = All IsEntry es
IsNode (internal ks cs) = (length cs ≡ length ks + 1) × All (λ c. c < 2 ^ 64) cs

read_bytes-append : (n : ℕ) (xs ys : Bytes) → n ≡ length xs → read_bytes n (xs ++ ys) ≡ ok (xs, ys)
unfolding read_bytes
read_bytes-append n xs ys e =
    ground (arith, length-append xs ys, take_append xs ys n e, drop_append xs ys n e)

read_le-put_le :
    (n v : ℕ) (rest : Bytes) → v < 256 ^ n → read_le n (put_le n v ++ rest) ≡ ok (v, rest)
unfolding read_le
read_le-put_le n v rest h =
    rw (read_bytes-append n (put_le n v) rest (sym (length-put_le n v)), get_le-put_le n v h)

read_flag : (flag : ℕ) (rest : Bytes) → read_le 1 (flag ∷ rest) ≡ ok (flag, rest)
unfolding read_le read_bytes get_le
read_flag flag rest = ground arith

decode_value-inline :
    (v rest : Bytes)
    → length v < 2 ^ 32
    → decode_value flag_inline (put_le 4 (length v) ++ (v ++ rest)) ≡ ok (inline v, rest)
unfolding decode_value
decode_value-inline v rest h =
    rw (read_le-put_le 4 (length v) (v ++ rest) h, read_bytes-append (length v) v rest refl)

decode_value-overflow :
    (head size : ℕ) (rest : Bytes)
    → head < 2 ^ 64
    → size < 2 ^ 64
    → decode_value flag_overflow (put_le 8 head ++ (put_le 8 size ++ rest))
      ≡ ok (overflow head size, rest)
unfolding decode_value
decode_value-overflow head size rest h k =
    rw (read_le-put_le 8 head (put_le 8 size ++ rest) h, read_le-put_le 8 size rest k)

-- What follows a key: its flag and value.
abbrev flag_of : EntryValue → ℕ
flag_of (inline v) = flag_inline
flag_of (overflow head size) = flag_overflow

abbrev value_bytes : EntryValue → Bytes → Bytes
value_bytes (inline v) rest = put_le 4 (length v) ++ (v ++ rest)
value_bytes (overflow head size) rest = put_le 8 head ++ (put_le 8 size ++ rest)

encode_value_parts :
    (v : EntryValue) (rest : Bytes) → encode_value v ++ rest ≡ flag_of v ∷ value_bytes v rest
unfolding encode_value
encode_value_parts (inline v) rest =
    ap (λ r. flag_inline ∷ r) (append_assoc (put_le 4 (length v)) v rest)
encode_value_parts (overflow head size) rest =
    ap (λ r. flag_overflow ∷ r) (append_assoc (put_le 8 head) (put_le 8 size) rest)

decode_value-value_bytes :
    (e : LeafEntry) (rest : Bytes)
    → IsEntry e
    → entry_size e ≤ body_size
    → decode_value (flag_of e.value) (value_bytes e.value rest) ≡ ok (e.value, rest)
unfolding entry_size
decode_value-value_bytes e rest h k = go e.value h k
  where
    go :
        (v : EntryValue)
        → IsValue v
        → entry_size (record { key = e.key; value = v }) ≤ body_size
        → decode_value (flag_of v) (value_bytes v rest) ≡ ok (v, rest)
    go (inline v) h k = decode_value-inline v rest (omega arith)
    go (overflow head size) h k = decode_value-overflow head size rest h.0 h.1

key-lt-entry_size : (e : LeafEntry) → length e.key < entry_size e
unfolding entry_size
key-lt-entry_size e = go e.value
  where
    go : (v : EntryValue) → length e.key < entry_size (record { key = e.key; value = v })
    go (inline v) = omega arith
    go (overflow head size) = omega arith

length-le-entries_size : (es : List LeafEntry) → length es ≤ entries_size es
unfolding entries_size
length-le-entries_size [] = omega arith
length-le-entries_size (e ∷ es) = omega (arith, key-lt-entry_size e, length-le-entries_size es)

encode_entries_parts :
    (e : LeafEntry) (es : List LeafEntry) (rest : Bytes)
    → encode_entries (e ∷ es) ++ rest
      ≡ put_le 2 (length e.key)
        ++ (e.key ++ (flag_of e.value ∷ value_bytes e.value (encode_entries es ++ rest)))
unfolding encode_entries
encode_entries_parts e es rest =
    append_assoc (put_le 2 (length e.key)) _ rest
    ∙ ap (λ r. put_le 2 (length e.key) ++ r)
        (append_assoc e.key _ rest
          ∙ ap (λ r. e.key ++ r)
              (append_assoc (encode_value e.value) (encode_entries es) rest
                ∙ encode_value_parts e.value (encode_entries es ++ rest)))

decode_entries_step :
    (e : LeafEntry) (n : ℕ) (tail : Bytes) (es : List LeafEntry)
    → IsEntry e
    → entry_size e ≤ body_size
    → decode_entries n tail ≡ ok es
    → decode_entries
        (suc n)
        (put_le 2 (length e.key) ++ (e.key ++ (flag_of e.value ∷ value_bytes e.value tail)))
      ≡ ok (e ∷ es)
unfolding decode_entries
decode_entries_step e n tail es h k ih = rw (
  read_le-put_le 2 (length e.key) (e.key ++ (flag_of e.value ∷ value_bytes e.value tail))
      (omega (arith, key-lt-entry_size e)),
  read_bytes-append (length e.key) e.key (flag_of e.value ∷ value_bytes e.value tail) refl,
  read_flag (flag_of e.value) (value_bytes e.value tail),
  decode_value-value_bytes e tail h k,
  ih,
)

decode_entries-encode_entries :
    (es : List LeafEntry) (rest : Bytes)
    → All IsEntry es
    → entries_size es ≤ body_size
    → decode_entries (length es) (encode_entries es ++ rest) ≡ ok es
decode_entries-encode_entries [] rest h k = unfold decode_entries in refl
decode_entries-encode_entries (e ∷ es) rest (he, h) k =
    let total : entries_size (e ∷ es) ≡ entry_size e + entries_size es =
      unfold entries_size in refl in
    ap (decode_entries (suc (length es))) (encode_entries_parts e es rest)
    ∙ decode_entries_step e (length es) (encode_entries es ++ rest) es he (omega arith)
        (decode_entries-encode_entries es rest h (omega arith))

decode_seps_step :
    (s : Bytes) (c n : ℕ) (tail : Bytes) (ks : List Bytes) (cs : List ℕ)
    → length s < 256 ^ 2
    → c < 2 ^ 64
    → decode_seps n tail ≡ ok (ks, cs)
    → decode_seps (suc n) (put_le 2 (length s) ++ (s ++ (put_le 8 c ++ tail))) ≡ ok (s ∷ ks, c ∷ cs)
unfolding decode_seps
decode_seps_step s c n tail ks cs small hc ih = rw (
  read_le-put_le 2 (length s) (s ++ (put_le 8 c ++ tail)) small,
  read_bytes-append (length s) s (put_le 8 c ++ tail) refl,
  read_le-put_le 8 c tail hc,
  ih,
)

decode_seps-encode_seps :
    (ks : List Bytes) (cs : List ℕ)
    → length cs ≡ length ks
    → All (λ c. c < 2 ^ 64) cs
    → seps_size ks ≤ body_size
    → decode_seps (length ks) (encode_seps ks cs) ≡ ok (ks, cs)
unfolding encode_seps
decode_seps-encode_seps [] [] e h k = unfold decode_seps in refl
decode_seps-encode_seps [] (c ∷ cs) e h k = absurd (omega arith)
decode_seps-encode_seps (s ∷ ks) [] e h k = absurd (omega arith)
decode_seps-encode_seps (s ∷ ks) (c ∷ cs) e (hc, h) k =
    let total : seps_size (s ∷ ks) ≡ 2 + length s + 8 + seps_size ks = unfold seps_size in refl in
    decode_seps_step s c (length ks) (encode_seps ks cs) ks cs (omega arith) hc
      (decode_seps-encode_seps ks cs (omega arith) h (omega arith))

length-le-seps_size : (ks : List Bytes) → length ks ≤ seps_size ks
unfolding seps_size
length-le-seps_size [] = omega arith
length-le-seps_size (k ∷ ks) = omega (arith, length-le-seps_size ks)

decode_leaf-encode_body :
    (es : List LeafEntry)
    → All IsEntry es
    → 2 + entries_size es ≤ body_size
    → decode_leaf (encode_body (leaf es)) ≡ ok (leaf es)
unfolding decode_leaf encode_body
decode_leaf-encode_body es h k =
    let whole : decode_entries (length es) (encode_entries es) ≡ ok es =
      ap (decode_entries (length es)) (sym (append-nil (encode_entries es)))
      ∙ decode_entries-encode_entries es [] h (omega arith) in
    rw (
      read_le-put_le 2 (length es) (encode_entries es) (omega (arith, length-le-entries_size es)),
      whole,
    )

decode_internal-encode_body :
    (ks : List Bytes) (cs : List ℕ)
    → IsNode (internal ks cs)
    → 10 + seps_size ks ≤ body_size
    → decode_internal (encode_body (internal ks cs)) ≡ ok (internal ks cs)
unfolding decode_internal encode_body first_child
decode_internal-encode_body ks [] (e, h) k = absurd (omega arith)
decode_internal-encode_body ks (c ∷ cs) (e, (hc, h)) k = rw (
  read_le-put_le 2 (length ks) (put_le 8 c ++ encode_seps ks cs)
      (omega (arith, length-le-seps_size ks)),
  read_le-put_le 8 c (encode_seps ks cs) hc,
  decode_seps-encode_seps ks cs (omega arith) h (omega arith),
)

length-encode_value :
    (e : LeafEntry) → entry_size e ≡ 2 + length e.key + length (encode_value e.value)
unfolding entry_size
length-encode_value e = go e.value
  where
    go :
        (v : EntryValue)
        → entry_size (record { key = e.key; value = v })
          ≡ 2 + length e.key + length (encode_value v)
    go (inline v) =
        unfold encode_value in
        omega (arith, length-append (put_le 4 (length v)) v, length-put_le 4 (length v))
    go (overflow head size) =
        unfold encode_value in
        omega (
          arith,
          length-append (put_le 8 head) (put_le 8 size),
          length-put_le 8 head,
          length-put_le 8 size,
        )

length-encode_entries : (es : List LeafEntry) → length (encode_entries es) ≡ entries_size es
unfolding encode_entries entries_size
length-encode_entries [] = refl
length-encode_entries (e ∷ es) = omega (
  arith,
  length-append (put_le 2 (length e.key)) (e.key ++ (encode_value e.value ++ encode_entries es)),
  length-put_le 2 (length e.key),
  length-append e.key (encode_value e.value ++ encode_entries es),
  length-append (encode_value e.value) (encode_entries es),
  length-encode_value e,
  length-encode_entries es,
)

length-encode_seps :
    (ks : List Bytes) (cs : List ℕ)
    → length cs ≡ length ks
    → length (encode_seps ks cs) ≡ seps_size ks
unfolding encode_seps seps_size
length-encode_seps [] [] e = refl
length-encode_seps [] (c ∷ cs) e = refl
length-encode_seps (k ∷ ks) [] e = absurd (omega arith)
length-encode_seps (k ∷ ks) (c ∷ cs) e = omega (
  arith,
  length-append (put_le 2 (length k)) (k ++ (put_le 8 c ++ encode_seps ks cs)),
  length-put_le 2 (length k),
  length-append k (put_le 8 c ++ encode_seps ks cs),
  length-append (put_le 8 c) (encode_seps ks cs),
  length-put_le 8 c,
  length-encode_seps ks cs (omega arith),
)

-- For a leaf, and for an internal node with one child more than separators, `encodedSize` is the
-- length of the body that `encodeTo` writes.
pub length-encode_body : (n : Node) → IsNode n → length (encode_body n) ≡ encoded_size n
unfolding encode_body encoded_size first_child
length-encode_body (leaf es) h = omega (
  arith,
  length-append (put_le 2 (length es)) (encode_entries es),
  length-put_le 2 (length es),
  length-encode_entries es,
)
length-encode_body (internal ks []) (e, h) = absurd (omega arith)
length-encode_body (internal ks (c ∷ cs)) (e, h) = omega (
  arith,
  length-append (put_le 2 (length ks)) (put_le 8 c ++ encode_seps ks cs),
  length-put_le 2 (length ks),
  length-append (put_le 8 c) (encode_seps ks cs),
  length-put_le 8 c,
  length-encode_seps ks cs (omega arith),
)

decode_node_of :
    (n : Node) (p : Page)
    → type_of p ≡ node_type n
    → payload p ≡ encode_body n
    → IsNode n
    → encoded_size n ≤ body_size
    → decode_node p ≡ ok n
unfolding decode_node encoded_size
decode_node_of (leaf es) p t b h f = rw (t, b) (decode_leaf-encode_body es h f)
decode_node_of (internal ks cs) p t b h f = rw (t, b) (decode_internal-encode_body ks cs h f)

module _ (n : Node) (id : ℕ) (h : IsNode n) (f : fits n ≡ true) (hid : id < 2 ^ 64) where
  encoded_size-le : encoded_size n ≤ body_size
  unfolding fits
  encoded_size-le = leb→le _ _ f

  encoded_fields :
      (page_id (encode_to n id) ≡ id)
      × (type_of (encode_to n id) ≡ node_type n)
      × (payload (encode_to n id) ≡ encode_body n)
  unfolding encode_to
  encoded_fields =
      page_with_fields id (node_type n) (encode_body n) hid
        (rw (length-encode_body n h) encoded_size-le)

  -- A node whose serialized size is at most a page body, with 64-bit references and one child more
  -- than separators, is parsed back unchanged from the page that `encodeTo` makes for a 64-bit id.
  pub decode_node-encode_to : decode_node (encode_to n id) ≡ ok n
  decode_node-encode_to =
      decode_node_of n (encode_to n id) encoded_fields.1 encoded_fields.2 h encoded_size-le

pub encode_to-IsPage : (n : Node) (id : ℕ) → IsPage (encode_to n id)
unfolding encode_to
encode_to-IsPage n id = page_with-IsPage id (node_type n) (encode_body n)

-- A node is parsed from the type and the payload of its page.
pub decode_node_same :
    (p q : Page) → type_of q ≡ type_of p → payload q ≡ payload p → decode_node q ≡ decode_node p
unfolding decode_node
decode_node_same p q t b = rw (t, b)

-- The id of a page does not depend on what its body holds, or whether that fits.
pub page_id-encode_to_any : (n : Node) (id : ℕ) → id < 2 ^ 64 → page_id (encode_to n id) ≡ id
unfolding encode_to
page_id-encode_to_any n id h =
    page_id-set_payload_len _ (length (encode_body n))
    ∙ page_id-set_body (new id (node_type n)) 0 (encode_body n)
    ∙ page_id-new id (node_type n) h

-- A page that holds a node is no meta page.
pub type_of-decode_node :
    (q : Page) (n : Node) → decode_node q ≡ ok n → nat_beq (type_of q) page_type_meta ≡ false
unfolding decode_node
type_of-decode_node q n h = ground (arith, h)
