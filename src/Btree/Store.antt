-- ===== src/Btree/Store.antt =====
-- The interfaces `PageSource` and `PageStore` of node.go, with what the tree relies on, and the two
-- steps that every new node takes: `Allocate`, then `WritePage` of its encoding.
pub mod OnFile
pub mod MetaWrite
use zadodb.Prelude.{ℕ, ◌+◌, ◌^◌, ◌≤◌, ◌<◌, ◌≡◌, ◌≢◌, refl, sym, ap, ◌∙◌, arith, true}
use zadodb.Errors.{Result, ok, err, ◌>>=◌}
use zadodb.Page.{Page, page_id, type_of, payload}
use zadodb.Page.Fields.{IsPage}
use zadodb.Btree.{Node, fits}
use zadodb.Btree.Encode.{encode_to, decode_node}
use zadodb.Btree.Encode.RoundTrip.{
  IsNode, decode_node_same, page_id-encode_to_any, decode_node-encode_to, encode_to-IsPage,
}

pub record PageStore (S : Type 0) : Type 0 where
  pub read_page : S → ℕ → Result Page
  pub allocate : S → ℕ × S
  pub write_page : S → Page → S

-- Page ids are given out in order; a write changes no other page.
pub record Laws {S : Type 0} (st : PageStore S) : Type 1 where
  pub next : S → ℕ
  pub Valid : S → Type 0
  pub valid_below : (s : S) (j : ℕ) (q : Page) → Valid s → st.read_page s j ≡ ok q → j < next s
  pub allocate_id : (s : S) → (st.allocate s).0 ≡ next s
  pub allocate_next : (s : S) → next (st.allocate s).1 ≡ next s + 1
  pub allocate_read : (s : S) (j : ℕ) → st.read_page (st.allocate s).1 j ≡ st.read_page s j
  pub allocate_valid : (s : S) → Valid s → Valid (st.allocate s).1
  pub write_next : (s : S) (p : Page) → next (st.write_page s p) ≡ next s
  pub write_valid :
      (s : S) (p : Page) → IsPage p → page_id p < next s → Valid s → Valid (st.write_page s p)
  pub write_self :
      (s : S) (p : Page)
      → IsPage p
      → (q : Page) × (st.read_page (st.write_page s p) (page_id p) ≡ ok q)
        × (type_of q ≡ type_of p)
        × (payload q ≡ payload p)
  pub write_ne :
      (s : S) (p : Page) (j : ℕ) (q : Page)
      → IsPage p
      → j ≢ page_id p
      → st.read_page s j ≡ ok q
      → st.read_page (st.write_page s p) j ≡ ok q

module _ {S : Type 0} (st : PageStore S) where
  unfoldable pub load : S → ℕ → Result Node
  load s id = do p ← st.read_page s id; decode_node p

  unfoldable pub put_node : S → Node → ℕ × S
  put_node s n = let (id, s') = st.allocate s in (id, st.write_page s' (encode_to n id))

module _ {S : Type 0} {st : PageStore S} (laws : Laws st) where
  -- From `s` to `s'` nothing that could be read has changed, and page ids have only grown.
  pub record Extends (s s' : S) : Type 0 where
    pub valid : laws.Valid s'
    pub grows : laws.next s ≤ laws.next s'
    pub kept : (j : ℕ) (q : Page) → st.read_page s j ≡ ok q → st.read_page s' j ≡ ok q

  pub Extends-refl : (s : S) → laws.Valid s → Extends s s
  Extends-refl s v = record { valid = v; grows = omega arith; kept = λ j q h. h }

  pub Extends-trans : {s t u : S} → Extends s t → Extends t u → Extends s u
  Extends-trans a b = record {
    valid = b.valid;
    grows = omega (arith, a.grows, b.grows);
    kept = λ j q h. b.kept j q (a.kept j q h);
  }

  -- Writing a page under an id that is fresh keeps all that could be read.
  pub write-Extends :
      (s : S) (p : Page)
      → laws.Valid s
      → IsPage p
      → page_id p ≡ laws.next s
      → Extends s (st.write_page (st.allocate s).1 p)
  write-Extends s p v w e =
      let s' = (st.allocate s).1 in
      record {
        valid =
            laws.write_valid s' p w (omega (arith, e, laws.allocate_next s))
              (laws.allocate_valid s v);
        grows = omega (arith, laws.write_next s' p, laws.allocate_next s);
        kept = λ j q h.
            laws.write_ne s' p j q w
              (λ j_new. absurd (omega (arith, laws.valid_below s j q v h, j_new, e)))
              (laws.allocate_read s j ∙ h);
      }

  load_write :
      (s : S) (p : Page) (n : Node)
      → IsPage p
      → decode_node p ≡ ok n
      → load st (st.write_page s p) (page_id p) ≡ ok n
  unfolding load
  load_write s p n w e =
      let (q, read, t, b) = laws.write_self s p w in rw read (decode_node_same p q t b ∙ e)

  module _ (s : S) (n : Node) (v : laws.Valid s) (room : laws.next s < 2 ^ 64) (h : IsNode n)
      (f : fits n ≡ true) where
    fresh_id : page_id (encode_to n (laws.next s)) ≡ laws.next s
    fresh_id = page_id-encode_to_any n (laws.next s) room

    -- A new node stands under the next id and reads back; all other pages are as they were.
    pub put_node_lem :
        ((put_node st s n).0 ≡ laws.next s)
        × (load st (put_node st s n).1 (laws.next s) ≡ ok n)
        × Extends s (put_node st s n).1
        × (laws.next (put_node st s n).1 ≡ laws.next s + 1)
    unfolding put_node
    put_node_lem =
        let s' = (st.allocate s).1 in
        let p = encode_to n (laws.next s) in
        (
          laws.allocate_id s,
          rw (laws.allocate_id s) (
              ap (load st (st.write_page s' p)) (sym fresh_id)
              ∙ load_write s' p n (encode_to-IsPage n (laws.next s))
                  (decode_node-encode_to n (laws.next s) h f room)),
          rw (laws.allocate_id s) (write-Extends s p v (encode_to-IsPage n (laws.next s)) fresh_id),
          laws.write_next s' _ ∙ laws.allocate_next s,
        )

  -- A new page of any node keeps what could be read, as long as ids fit 64 bits.
  pub put_node-Extends :
      (s : S) (n : Node)
      → laws.Valid s
      → laws.next s < 2 ^ 64
      → Extends s (put_node st s n).1 × (laws.next (put_node st s n).1 ≡ laws.next s + 1)
  unfolding put_node
  put_node-Extends s n v room = (
    rw (laws.allocate_id s) (
        write-Extends s (encode_to n (laws.next s)) v (encode_to-IsPage n (laws.next s))
          (page_id-encode_to_any n (laws.next s) room)),
    laws.write_next (st.allocate s).1 _ ∙ laws.allocate_next s,
  )
