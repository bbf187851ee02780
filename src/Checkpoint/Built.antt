-- ===== src/Checkpoint/Built.antt =====
-- A checkpoint from the records of the retired log to the tree of the new generation.
use zadodb.Prelude.{ℕ, ◌+◌, ◌*◌, ◌<◌, ◌≤◌, ◌^◌, ◌≡◌, refl, ap, ◌∙◌, arith, All, ltb, if◌then◌else◌}
use zadodb.Prelude.{some, List, [], ◌∷◌, ◌++◌, length}
use zadodb.Prelude.Dict.{Dict, find}
use zadodb.Bytes.{Bytes}
use zadodb.Bytes.Order.{bytes_eq}
use zadodb.Bytes.Sorted.{Sorted}
use zadodb.Errors.{ok}
use zadodb.Wal.{WalEntry, key_of, payload, flatten}
use zadodb.Wal.Codec.{Codec}
use zadodb.Wal.Log.{LogRecord}
use zadodb.Recovery.Boot.{Logged, logged_none, logged_one, logged_old}
use zadodb.Btree.Store.{PageStore, Laws, Extends}
use zadodb.Btree.Lookup.{get}
use zadodb.Btree.Build.Added.{Loadable}
use zadodb.Btree.Build.Found.{leaf_pages, get-bulk_load}
use zadodb.Checkpoint.{
  Delta, Parsed, parse_record, parse_records, put_deltas, sort_deltas, emit, before, from, after,
  pair_at, merge, merge_build,
}
use zadodb.Checkpoint.Merge.{over, find-merge}
use zadodb.Checkpoint.Ordered.{merge-Sorted, All-merge}
use zadodb.Checkpoint.Deltas.{
  NoDup-put_deltas, find-sort_deltas, sort_deltas-Sorted, net, over-put_deltas, All-put_deltas,
  All-sort_deltas,
}

-- The single writes of the transactions, in order, and the highest id of the records.
unfoldable pub writes : List (ℕ × WalEntry) → List WalEntry
writes [] = []
writes ((tx, x) ∷ xs) = flatten x ++ writes xs

abbrev pub newest : List LogRecord → ℕ → ℕ
newest [] n = n
newest ((tx, p) ∷ rs) n = newest rs (if ltb n tx then tx else n)

put_deltas-append :
    (xs ys : List WalEntry) (m : Dict Bytes Delta)
    → put_deltas (xs ++ ys) m ≡ put_deltas ys (put_deltas xs m)
unfolding put_deltas
put_deltas-append [] ys m = refl
put_deltas-append (x ∷ xs) ys m = put_deltas-append xs ys _

parse_record-Logged :
    (codec : Codec) (base tx : ℕ) (p : Bytes) (x : WalEntry) (r : Parsed)
    → base < tx
    → codec.marshal x ≡ some p
    → parse_record codec base (tx, p) r
      ≡ some (record {
        deltas = put_deltas (flatten x) r.deltas;
        last_applied = if ltb r.last_applied tx then tx else r.last_applied;
      })
unfolding parse_record
parse_record-Logged codec base tx p x r lt m = ground (arith, codec.unmarshal-marshal x p m)

parse_step :
    (codec : Codec) (base : ℕ) (l : LogRecord) (rs : List LogRecord) (r r1 : Parsed)
    → parse_record codec base l r ≡ some r1
    → parse_records codec base (l ∷ rs) r ≡ parse_records codec base rs r1
unfolding parse_records
parse_step codec base l rs r r1 h = ground (arith, h)

parse_record-old :
    (codec : Codec) (base tx : ℕ) (p : Bytes) (r : Parsed)
    → tx ≤ base
    → parse_record codec base (tx, p) r
      ≡ some (record {
        deltas = r.deltas;
        last_applied = if ltb r.last_applied tx then tx else r.last_applied;
      })
unfolding parse_record
parse_record-old codec base tx p r le = ground arith

-- The loop collects the deltas of the writes in order, and the highest transaction id.
pub parse_records-Logged :
    (codec : Codec) (base : ℕ) (rs : List LogRecord) (xs : List (ℕ × WalEntry)) (r : Parsed)
    → Logged codec base rs xs
    → parse_records codec base rs r
      ≡ some (record {
        deltas = put_deltas (writes xs) r.deltas;
        last_applied = newest rs r.last_applied;
      })
unfolding writes
parse_records-Logged codec base rs xs r logged_none = unfold parse_records put_deltas in refl
parse_records-Logged codec base rs xs r (logged_one {rs = rs'} {xs = xs'} tx p x lt m more) =
    let r1 : Parsed = record {
      deltas = put_deltas (flatten x) r.deltas;
      last_applied = if ltb r.last_applied tx then tx else r.last_applied;
    } in
    parse_step codec base (tx, p) rs' r r1 (parse_record-Logged codec base tx p x r lt m)
    ∙ parse_records-Logged codec base rs' xs' r1 more
    ∙ rw (put_deltas-append (flatten x) (writes xs') r.deltas) refl
parse_records-Logged codec base rs xs r (logged_old {rs = rs'} {xs = xs'} tx p le more) =
    let r1 : Parsed = record {
      deltas = r.deltas;
      last_applied = if ltb r.last_applied tx then tx else r.last_applied;
    } in
    parse_step codec base (tx, p) rs' r r1 (parse_record-old codec base tx p r le)
    ∙ parse_records-Logged codec base rs' xs' r1 more

-- The pairs of the next generation.
abbrev pub folded : Dict Bytes Bytes → List (ℕ × WalEntry) → Dict Bytes Bytes
folded base xs = merge base (sort_deltas (put_deltas (writes xs) []))

pub find-folded :
    (base : Dict Bytes Bytes) (xs : List (ℕ × WalEntry)) (key : Bytes)
    → Sorted base
    → find key (folded base xs) ≡ net (writes xs) (λ k. find k base) key
unfolding find
find-folded base xs key order =
    let m = put_deltas (writes xs) [] in
    let once = NoDup-put_deltas (writes xs) [] tt in
    find-merge key base (sort_deltas m) order (sort_deltas-Sorted m once)
    ∙ ap (λ d. over d (find key base)) (find-sort_deltas m key once)
    ∙ over-put_deltas (writes xs) [] (λ k. find k base) key

pub folded-Sorted :
    (base : Dict Bytes Bytes) (xs : List (ℕ × WalEntry)) → Sorted base → Sorted (folded base xs)
folded-Sorted base xs order =
    let m = put_deltas (writes xs) [] in
    merge-Sorted base (sort_deltas m) order
      (sort_deltas-Sorted m (NoDup-put_deltas (writes xs) [] tt))

-- With no writes the pairs stay.
pub folded-nil : (base : Dict Bytes Bytes) → folded base [] ≡ base
unfolding merge writes put_deltas sort_deltas emit before from after pair_at
folded-nil [] = refl
folded-nil (kv ∷ kvs) = ap (λ r. kv ∷ r) (folded-nil kvs)

module _ {S : Type 0} {st : PageStore S} (laws : Laws st) (rounds : ℕ) where
  -- What the new generation asks of a write: a short key, and a value that fits the rounds.
  abbrev pub Writable : WalEntry → Type 0
  Writable x = Loadable laws rounds (key_of x, []) × Loadable laws rounds (key_of x, payload x)

  pub folded-Loadable :
      (base : Dict Bytes Bytes) (xs : List (ℕ × WalEntry))
      → All (Loadable laws rounds) base
      → All Writable (writes xs)
      → All (Loadable laws rounds) (folded base xs)
  unfolding writes
  folded-Loadable base xs fit each =
      let m = put_deltas (writes xs) [] in
      All-merge (Loadable laws rounds) base (sort_deltas m) fit (
        All-sort_deltas (Loadable laws rounds) m
          (All-put_deltas (Loadable laws rounds) (writes xs) [] each tt))

  -- A checkpoint whose retired log holds transactions, those behind the base as given, over a base whose pairs are sorted
  -- and fit pages, with room for the new pages, succeeds: its new tree extends the store, and `get`, on
  -- more fuel than the merged pairs, finds in it at every key what the base has there after all the log's
  -- writes in order.
  pub get-merge_build :
      (codec : Codec) (applied : ℕ) (rs : List LogRecord) (xs : List (ℕ × WalEntry)) (s : S)
      (base : Dict Bytes Bytes) (fuel : ℕ) (key : Bytes)
      → Logged codec applied rs xs
      → laws.Valid s
      → Sorted base
      → All (Loadable laws rounds) base
      → All Writable (writes xs)
      → laws.next s + 3 * leaf_pages (folded base xs) + 1 < 2 ^ 64
      → length (folded base xs) < fuel
      → (parse_records codec applied rs (record { deltas = []; last_applied = applied })
          ≡ some (record { deltas = put_deltas (writes xs) []; last_applied = newest rs applied }))
        × (root : ℕ) × (s' : S) × (merge_build st s base (sort_deltas (put_deltas (writes xs) []))
            ≡ ok (root, s'))
        × Extends laws s s'
        × (get st rounds fuel s' root key ≡ ok (net (writes xs) (λ k. find k base) key))
  unfolding merge_build find
  get-merge_build codec applied rs xs s base fuel key log v order fit each room enough =
      let (root, s', run, x, found) =
        get-bulk_load laws rounds s (folded base xs) fuel key v (folded-Sorted base xs order)
          (folded-Loadable base xs fit each) room enough in
      (
        parse_records-Logged codec applied rs xs _ log,
        root,
        s',
        run,
        x,
        found ∙ ap ok (find-folded base xs key order),
      )
