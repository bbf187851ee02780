-- ===== src/Btree/Overflow/RoundTrip.antt =====
-- A value that was spilled into a chain of overflow pages is read back from it, in the store that the
-- writer leaves and in every later one.
use zadodb.Prelude.{ℕ, zero, suc, ◌+◌, ◌^◌, ◌<◌, ◌≤◌, nat_beq}
use zadodb.Prelude.{false, ◌≡◌, ◌≢◌, refl, sym, ap, ◌∙◌, arith, append_assoc, All, concat, map}
use zadodb.Prelude.{List, [], ◌∷◌, ◌++◌, length, length-append, take, drop, slice}
use zadodb.Prelude.{length-map, length-take, length-drop, take-append-drop, take_all}
use zadodb.Bytes.{Bytes, put_le, get_le}
use zadodb.Bytes.Endian.{length-put_le, get_le-put_le}
use zadodb.Errors.{ok}
use zadodb.Page.{Page, new, page_id, type_of, payload, set_body}
use zadodb.Page.{page_type_overflow, invalid_page_id}
use zadodb.Page.Fields.{IsPage, new-IsPage}
use zadodb.Page.Contents.{page_with, page_with-IsPage, page_with_fields, set_body-append}
use zadodb.Btree.Store.{PageStore, Laws, Extends}
use zadodb.Btree.Overflow.{
  overflow_header, chunk, chunks, or_one_empty, value_chunks, chain_next, overflow_page,
}
use zadodb.Btree.Overflow.{allocate_chunks, write_chain, write_overflow, read_overflow}

concat-chunks : (f : ℕ) (val : Bytes) → length val ≤ f → concat (chunks f val) ≡ val
unfolding chunks
concat-chunks zero [] h = refl
concat-chunks zero (b ∷ val) h = absurd (omega arith)
concat-chunks (suc f) [] h = refl
concat-chunks (suc f) (b ∷ val) h =
    ap (λ r. take chunk (b ∷ val) ++ r)
      (concat-chunks f (drop chunk (b ∷ val)) (omega (arith, length-drop chunk (b ∷ val))))
    ∙ take-append-drop chunk (b ∷ val)

chunks-bounded : (f : ℕ) (val : Bytes) → All (λ d. length d ≤ chunk) (chunks f val)
unfolding chunks
chunks-bounded zero val = tt
chunks-bounded (suc f) [] = tt
chunks-bounded (suc f) (b ∷ val) =
    (omega (arith, length-take chunk (b ∷ val)), chunks-bounded f (drop chunk (b ∷ val)))

concat-value_chunks : (val : Bytes) → concat (value_chunks val) ≡ val
unfolding value_chunks
concat-value_chunks val =
    go (chunks (length val) val) (concat-chunks (length val) val (omega arith))
  where
    go : (cs : List Bytes) → concat cs ≡ val → concat (or_one_empty cs) ≡ val
    go [] e = e
    go (c ∷ cs) e = e

value_chunks-bounded : (val : Bytes) → All (λ d. length d ≤ chunk) (value_chunks val)
unfolding value_chunks
value_chunks-bounded val = go (chunks (length val) val) (chunks-bounded (length val) val)
  where
    go :
        (cs : List Bytes)
        → All (λ d. length d ≤ chunk) cs
        → All (λ d. length d ≤ chunk) (or_one_empty cs)
    go [] h = (omega arith, tt)
    go (c ∷ cs) h = h

abbrev snd_of : ℕ × Bytes → Bytes
snd_of (id, d) = d

-- The payload of an overflow page.
abbrev link_bytes : Bytes → ℕ → Bytes
link_bytes d next = put_le 8 next ++ (put_le 4 (length d) ++ d)

length-link_bytes : (d : Bytes) (next : ℕ) → length (link_bytes d next) ≡ overflow_header + length d
length-link_bytes d next = omega (
  arith,
  length-append (put_le 8 next) (put_le 4 (length d) ++ d),
  length-append (put_le 4 (length d)) d,
  length-put_le 8 next,
  length-put_le 4 (length d),
)

overflow_page_lem :
    (id : ℕ) (d : Bytes) (next : ℕ)
    → length d ≤ chunk
    → overflow_page id d next ≡ page_with id page_type_overflow (link_bytes d next)
unfolding overflow_page
overflow_page_lem id d next h =
    let base = new id page_type_overflow in
    let v = new-IsPage id page_type_overflow in
    let one = set_body base 0 (put_le 8 next) in
    let two : set_body one 8 (put_le 4 (length d))
        ≡ set_body base 0 (put_le 8 next ++ put_le 4 (length d)) =
      set_body-append base 0 8 (put_le 8 next) (put_le 4 (length d)) v
        (omega (arith, length-put_le 8 next)) (omega arith) in
    let three : set_body (set_body base 0 (put_le 8 next ++ put_le 4 (length d))) 12 d
        ≡ set_body base 0 ((put_le 8 next ++ put_le 4 (length d)) ++ d) =
      set_body-append base 0 12 (put_le 8 next ++ put_le 4 (length d)) d v
        (omega (
          arith,
          length-append (put_le 8 next) (put_le 4 (length d)),
          length-put_le 8 next,
          length-put_le 4 (length d),
        ))
        (omega arith) in
    rw (two, three, append_assoc (put_le 8 next) (put_le 4 (length d)) d, length-link_bytes d next)

link_front :
    (d : Bytes) (next : ℕ)
    → (take 8 (link_bytes d next) ≡ put_le 8 next)
      × (slice 8 4 (link_bytes d next) ≡ put_le 4 (length d))
      × (drop 12 (link_bytes d next) ≡ d)
unfolding put_le
link_front d next = (refl, refl, refl)

link_read :
    (d : Bytes) (next : ℕ)
    → next < 2 ^ 64
    → length d ≤ chunk
    → (get_le (take 8 (link_bytes d next)) ≡ next)
      × (get_le (slice 8 4 (link_bytes d next)) ≡ length d)
      × (slice overflow_header (length d) (link_bytes d next) ≡ d)
link_read d next h k =
    let (a, b, c) = link_front d next in
    (
      ap get_le a ∙ get_le-put_le 8 next h,
      ap get_le b ∙ get_le-put_le 4 (length d) (omega arith),
      ap (take (length d)) c ∙ take_all d (length d) (omega arith),
    )

overflow_page_fields :
    (id : ℕ) (d : Bytes) (next : ℕ)
    → id < 2 ^ 64
    → length d ≤ chunk
    → IsPage (overflow_page id d next)
      × (page_id (overflow_page id d next) ≡ id)
      × (type_of (overflow_page id d next) ≡ page_type_overflow)
      × (payload (overflow_page id d next) ≡ link_bytes d next)
overflow_page_fields id d next h k =
    let (i, t, p) =
      page_with_fields id page_type_overflow (link_bytes d next) h
        (omega (arith, length-link_bytes d next)) in
    rw (overflow_page_lem id d next k)
      (page_with-IsPage id page_type_overflow (link_bytes d next), i, t, p)

module _ {S : Type 0} {st : PageStore S} (laws : Laws st) where
  -- From page `id` on, the store holds a chain of these pieces.
  pub data Chain (s : S) : ℕ → List Bytes → Type 0 where
    chain_end : Chain s invalid_page_id []
    chain_link :
        {id next : ℕ} {d : Bytes} {ds : List Bytes} (q : Page)
        → id ≢ invalid_page_id
        → next < 2 ^ 64
        → length d ≤ chunk
        → st.read_page s id ≡ ok q
        → type_of q ≡ page_type_overflow
        → payload q ≡ link_bytes d next
        → Chain s next ds
        → Chain s id (d ∷ ds)

  pub Chain-Extends :
      {s s' : S} {id : ℕ} {ds : List Bytes} → Extends laws s s' → Chain s id ds → Chain s' id ds
  Chain-Extends x chain_end = chain_end
  Chain-Extends x (chain_link q a b c read t p more) =
      chain_link q a b c (x.kept _ q read) t p (Chain-Extends x more)

  -- Enough rounds: one for each page and one for the end.
  pub read_overflow-Chain :
      {s : S} {id : ℕ} {ds : List Bytes} (fuel : ℕ)
      → length ds < fuel
      → Chain s id ds
      → read_overflow st fuel s id ≡ ok (concat ds)
  unfolding read_overflow
  read_overflow-Chain zero h c = absurd (omega arith)
  read_overflow-Chain (suc f) h chain_end = ground arith
  read_overflow-Chain (suc f) h (chain_link {id} {next} {d} {ds} q a b c read t p more) =
      let (n, l, body) = link_read d next b c in
      let busy : nat_beq id invalid_page_id ≡ false = ground arith in
      rw (busy, read, t, p, l, n, length-link_bytes d next, body)
        (ground (arith, read_overflow-Chain f (omega arith) more))

  -- Pages handed out one after another, from `n` on.
  abbrev Consecutive : ℕ → List (ℕ × Bytes) → Type 0
  Consecutive n [] = Unit
  Consecutive n ((id, d) ∷ rest) = (id ≡ n) × Consecutive (suc n) rest

  allocate_chunks_lem :
      (s : S) (ds : List Bytes)
      → Consecutive (laws.next s) (allocate_chunks st s ds).0
        × (map snd_of (allocate_chunks st s ds).0 ≡ ds)
        × (laws.next (allocate_chunks st s ds).1 ≡ laws.next s + length ds)
        × ((j : ℕ) → st.read_page (allocate_chunks st s ds).1 j ≡ st.read_page s j)
        × (laws.Valid s → laws.Valid (allocate_chunks st s ds).1)
  unfolding allocate_chunks
  allocate_chunks_lem s [] = (tt, refl, omega arith, λ j. refl, λ v. v)
  allocate_chunks_lem s (d ∷ ds) =
      let s1 = (st.allocate s).1 in
      let (c, m, n, r, v) = allocate_chunks_lem s1 ds in
      let next1 : laws.next s1 ≡ suc (laws.next s) = omega (arith, laws.allocate_next s) in
      (
        (laws.allocate_id s, rw next1 at c),
        ap (λ r. d ∷ r) m,
        omega (arith, n, laws.allocate_next s),
        λ j. r j ∙ laws.allocate_read s j,
        λ h. v (laws.allocate_valid s h),
      )

  -- A page below all that a chain's ids name is left as it is.
  write_chain_kept :
      (n : ℕ) (t : S) (bs : List (ℕ × Bytes)) (j : ℕ) (q : Page)
      → Consecutive n bs
      → All (λ d. length d ≤ chunk) (map snd_of bs)
      → n + length bs ≤ 2 ^ 64
      → j < n
      → st.read_page t j ≡ ok q
      → st.read_page (write_chain st t bs) j ≡ ok q
  unfolding write_chain
  write_chain_kept n t [] j q c b room lt read = read
  write_chain_kept n t ((id, d) ∷ rest) j q (e, c) (k, b) room lt read =
      let (v, i, _, _) = overflow_page_fields id d (chain_next rest) (omega arith) k in
      write_chain_kept (suc n) _ rest j q c b (omega arith) (omega arith)
        (laws.write_ne t _ j q v (λ same. absurd (omega (arith, same, i))) read)

  chain_next_small :
      (n : ℕ) (bs : List (ℕ × Bytes))
      → Consecutive n bs
      → n + length bs < 2 ^ 64
      → chain_next bs < 2 ^ 64
  chain_next_small n [] c room = omega arith
  chain_next_small n ((id, d) ∷ rest) (e, c) room = omega arith

  write_chain-Chain :
      (n : ℕ) (t : S) (bs : List (ℕ × Bytes))
      → Consecutive n bs
      → All (λ d. length d ≤ chunk) (map snd_of bs)
      → n + length bs < 2 ^ 64
      → Chain (write_chain st t bs) (chain_next bs) (map snd_of bs)
  unfolding write_chain
  write_chain-Chain n t [] c b room = chain_end
  write_chain-Chain n t ((id, d) ∷ rest) (e, c) (k, b) room =
      let next = chain_next rest in
      let (v, i, kind, content) = overflow_page_fields id d next (omega arith) k in
      let t' = st.write_page t (overflow_page id d next) in
      let (q, read, tq, pq) = laws.write_self t (overflow_page id d next) v in
      let read' : st.read_page t' id ≡ ok q = ap (st.read_page t') (sym i) ∙ read in
      chain_link q (λ top. absurd (omega arith)) (chain_next_small (suc n) rest c (omega arith)) k
        (write_chain_kept (suc n) t' rest id q c b (omega arith) (omega arith) read') (tq ∙ kind)
        (pq ∙ content) (write_chain-Chain (suc n) t' rest c b (omega arith))

  write_chain_valid :
      (n : ℕ) (t : S) (bs : List (ℕ × Bytes))
      → Consecutive n bs
      → All (λ d. length d ≤ chunk) (map snd_of bs)
      → n + length bs ≤ laws.next t
      → laws.next t ≤ 2 ^ 64
      → laws.Valid t
      → laws.Valid (write_chain st t bs) × (laws.next (write_chain st t bs) ≡ laws.next t)
  unfolding write_chain
  write_chain_valid n t [] c b le room v = (v, refl)
  write_chain_valid n t ((id, d) ∷ rest) (e, c) (k, b) le room v =
      let (w, i, _, _) = overflow_page_fields id d (chain_next rest) (omega arith) k in
      let t' = st.write_page t (overflow_page id d (chain_next rest)) in
      let same : laws.next t' ≡ laws.next t = laws.write_next t _ in
      let (v', n') =
        write_chain_valid (suc n) t' rest c b (omega arith) (omega arith)
          (laws.write_valid t _ w (omega (arith, i)) v) in
      (v', n' ∙ same)

  pub record Spilled (s : S) (val : Bytes) : Type 0 where
    pub chain : Chain (write_overflow st s val).2 (write_overflow st s val).0 (value_chunks val)
    pub size : (write_overflow st s val).1 ≡ length val
    pub head_small : (write_overflow st s val).0 < 2 ^ 64
    pub next_after : laws.next (write_overflow st s val).2 ≡ laws.next s + length (value_chunks val)
    pub later : Extends laws s (write_overflow st s val).2

  -- Spilling a value makes a chain of its pieces and leaves every older page alone.
  pub write_overflow_lem :
      (s : S) (val : Bytes)
      → laws.Valid s
      → laws.next s + length (value_chunks val) < 2 ^ 64
      → Spilled s val
  unfolding write_overflow
  write_overflow_lem s val v room =
      let ds = value_chunks val in
      let bs = (allocate_chunks st s ds).0 in
      let t = (allocate_chunks st s ds).1 in
      let (c, m, n, r, keeps) = allocate_chunks_lem s ds in
      let count : length bs ≡ length ds = sym (length-map bs snd_of) ∙ ap length m in
      let b : All (λ d. length d ≤ chunk) (map snd_of bs) = rw m (value_chunks-bounded val) in
      let fits : laws.next s + length bs < 2 ^ 64 = omega arith in
      let (v', n') =
        write_chain_valid (laws.next s) t bs c b (omega arith) (omega arith) (keeps v) in
      record {
        chain = rw m at (write_chain-Chain (laws.next s) t bs c b fits);
        size = refl;
        head_small = chain_next_small (laws.next s) bs c fits;
        next_after = n' ∙ n;
        later = record {
          valid = v';
          grows = omega arith;
          kept = λ j q read.
              write_chain_kept (laws.next s) t bs j q c b (omega arith)
                (laws.valid_below s j q v read) (r j ∙ read);
        };
      }

  -- A value of any length, spilled to a chain in a valid store with room for its pages, is read back
  -- whole from the head that `writeOverflow` returned, in that store and in every later one, by any
  -- number of rounds above the number of its pages.
  pub read_overflow-write_overflow :
      (s s' : S) (val : Bytes) (fuel : ℕ)
      → laws.Valid s
      → laws.next s + length (value_chunks val) < 2 ^ 64
      → Extends laws (write_overflow st s val).2 s'
      → length (value_chunks val) < fuel
      → read_overflow st fuel s' (write_overflow st s val).0 ≡ ok val
  read_overflow-write_overflow s s' val fuel v room x enough =
      read_overflow-Chain fuel enough (Chain-Extends x (write_overflow_lem s val v room).chain)
      ∙ ap ok (concat-value_chunks val)
