-- ===== src/Btree/Overflow.antt =====
-- `writeOverflow` and `readOverflow` of internal/storage/btree/encode.go, and the leaf entries of
-- btree.go that use them. The loop that follows a chain takes fuel: one round for each page and one
-- for the end is enough (`read_overflow-write_overflow`).
pub mod RoundTrip
use zadodb.Prelude.{ℕ, zero, suc, ◌+◌, ◌-◌, ltb, leb, nat_beq, not, if◌then◌else◌}
use zadodb.Prelude.{List, [], ◌∷◌, ◌++◌, length, take, drop, slice}
use zadodb.Bytes.{Bytes, put_le, get_le}
use zadodb.Errors.{Result, ok, err, not_overflow, corrupt_overflow, out_of_fuel, panics, ◌>>=◌}
use zadodb.Page.{Page, body_size, new, set_body, set_payload_len, type_of, payload}
use zadodb.Page.{page_type_overflow, invalid_page_id}
use zadodb.Btree.{LeafEntry, EntryValue, inline, overflow, max_inline}
use zadodb.Btree.Store.{PageStore}

abbrev pub overflow_header : ℕ
overflow_header = 12

abbrev pub chunk : ℕ
chunk = body_size - overflow_header

-- The value in pieces of at most `chunk` bytes; its length is fuel enough.
unfoldable pub chunks : ℕ → Bytes → List Bytes
chunks zero val = []
chunks (suc f) [] = []
chunks (suc f) (b ∷ val) = take chunk (b ∷ val) ∷ chunks f (drop chunk (b ∷ val))

abbrev pub or_one_empty : List Bytes → List Bytes
or_one_empty [] = [] ∷ []
or_one_empty (c ∷ cs) = c ∷ cs

-- An empty value still takes one page.
unfoldable pub value_chunks : Bytes → List Bytes
value_chunks val = or_one_empty (chunks (length val) val)

abbrev pub chain_next : List (ℕ × Bytes) → ℕ
chain_next [] = invalid_page_id
chain_next ((id, d) ∷ rest) = id

pub overflow_page : ℕ → Bytes → ℕ → Page
overflow_page id d next =
    set_payload_len
      (set_body
        (set_body (set_body (new id page_type_overflow) 0 (put_le 8 next)) 8 (put_le 4 (length d)))
        overflow_header d)
      (overflow_header + length d)

module _ {S : Type 0} (st : PageStore S) where
  pub allocate_chunks : S → List Bytes → List (ℕ × Bytes) × S
  allocate_chunks s [] = ([], s)
  allocate_chunks s (d ∷ ds) =
      let (id, s1) = st.allocate s in let (rest, s2) = allocate_chunks s1 ds in ((id, d) ∷ rest, s2)

  pub write_chain : S → List (ℕ × Bytes) → S
  write_chain s [] = s
  write_chain s ((id, d) ∷ rest) =
      write_chain (st.write_page s (overflow_page id d (chain_next rest))) rest

  -- The head of the chain, the size, and the store.
  unfoldable pub write_overflow : S → Bytes → ℕ × ℕ × S
  write_overflow s val =
      let (bs, s') = allocate_chunks s (value_chunks val) in
      (chain_next bs, length val, write_chain s' bs)

  unfoldable pub read_overflow : ℕ → S → ℕ → Result Bytes
  read_overflow zero s id = err out_of_fuel
  read_overflow (suc f) s id =
      let rest = (do
        p ← st.read_page s id
        let body = payload p
        let clen = get_le (slice 8 4 body)
        if not (nat_beq (type_of p) page_type_overflow)
            then err not_overflow
            else if ltb (length body) overflow_header
            then err panics
            else if ltb (length body) (overflow_header + clen)
            then err corrupt_overflow
            else do
              more ← read_overflow f s (get_le (take 8 body))
              ok (slice overflow_header clen body ++ more)) in
      if nat_beq id invalid_page_id then ok [] else rest

  -- `materialize`.
  unfoldable pub materialize : ℕ → S → LeafEntry → Result Bytes
  materialize fuel s e = elim e.value [
    | inline v ↦ ok v
    | overflow head size ↦ read_overflow fuel s head
  ]

  -- `makeLeafEntry`: a value of more than `max_inline` bytes goes to a chain.
  unfoldable pub make_leaf_entry : S → Bytes → Bytes → LeafEntry × S
  make_leaf_entry s key val =
      let (head, size, s') = write_overflow s val in
      if leb (length val) max_inline
      then (record { key = key; value = inline val }, s)
      else (record { key = key; value = overflow head size }, s')
