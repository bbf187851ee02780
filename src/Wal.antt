-- ===== src/Wal.antt =====
-- internal/storage/wal/record.go: the entries of the write-ahead log and the keys that they change.
-- An int64 id is held as its 64-bit pattern, which for the positive ids in use is the id itself.
pub mod Keys
pub mod Log
pub mod Sequencer
pub mod Fsync
pub mod Calls
pub mod Codec
use zadodb.Prelude.{ℕ, zero, suc, ◌+◌, ◌-◌, ltb, nat_beq, if◌then◌else◌, ◌||◌, not}
use zadodb.Prelude.{
  Bool, Option, none, some, List, [], ◌∷◌, ◌++◌, length, get_or, take, drop, slice,
}
use zadodb.Bytes.{Bytes, put_be, get_be}

-- `OpType` is a byte: `unknown` stands for the values with no name.
pub data OpType : Type 0 where
  op_put op_delete op_create_class op_drop_class op_batch : OpType
  op_unknown : ℕ → OpType

mutual
  -- op, project, class, object id, data, timestamp, sub-entries
  pub data WalEntry : Type 0 where
    wal_entry : OpType → Bytes → Bytes → ℕ → Bytes → ℕ → Subs → WalEntry

  pub data Subs : Type 0 where
    no_subs : Subs
    sub : WalEntry → Subs → Subs

abbrev pub op : WalEntry → OpType
op (wal_entry o p c i d t s) = o

abbrev pub project : WalEntry → Bytes
project (wal_entry o p c i d t s) = p

abbrev pub class_of : WalEntry → Bytes
class_of (wal_entry o p c i d t s) = c

abbrev pub object_id : WalEntry → ℕ
object_id (wal_entry o p c i d t s) = i

abbrev pub payload : WalEntry → Bytes
payload (wal_entry o p c i d t s) = d

-- `Sub` as a slice.
unfoldable pub sub_list : Subs → List WalEntry
sub_list no_subs = []
sub_list (sub e s) = e ∷ sub_list s

unfoldable pub of_list : List WalEntry → Subs
of_list [] = no_subs
of_list (e ∷ es) = sub e (of_list es)

unfoldable pub flatten : WalEntry → List WalEntry
unfolding sub_list
flatten (wal_entry op_batch p c i d t s) = sub_list s
flatten e = e ∷ []

abbrev pub ns_class : ℕ
ns_class = 1

abbrev pub ns_object : ℕ
ns_object = 2

abbrev pub key_sep : ℕ
key_sep = 0

unfoldable pub scope : Bytes → Bytes
scope [] = []
scope (b ∷ bs) = (b ∷ bs) ++ (key_sep ∷ [])

unfoldable pub class_key : Bytes → Bytes → Bytes
unfolding scope
class_key p c = ns_class ∷ (scope p ++ c)

unfoldable pub object_prefix : Bytes → Bytes → Bytes
unfolding scope
object_prefix p c = ns_object ∷ (scope p ++ (c ++ (key_sep ∷ [])))

unfoldable pub object_key : Bytes → Bytes → ℕ → Bytes
unfolding scope
object_key p c id = ns_object ∷ (scope p ++ (c ++ (key_sep ∷ put_be 8 id)))

-- `none` is -1.
unfoldable pub index_zero : Bytes → Option ℕ
index_zero [] = none
index_zero (b ∷ bs) =
    if nat_beq b key_sep
    then some 0
    else elim (index_zero bs) [ none ↦ none | some i ↦ some (suc i) ]

unfoldable pub split_scope : Bytes → Bytes × Bytes
unfolding index_zero
split_scope body = elim (index_zero body) [
  | none ↦ ([], body)
  | some i ↦ (take i body, drop (i + 1) body)
]

-- The conditions read `key[0]` and `key[sepPos]` only where the length allows it.
unfoldable pub decode_object_key : Bytes → Option (Bytes × Bytes × ℕ)
decode_object_key key =
    let sep_pos = length key - 9 in
    let (p, c) = split_scope (slice 1 (sep_pos - 1) key) in
    if ltb (length key) 10 || not (nat_beq (get_or key 0 0) ns_object)
    then none
    else if not (nat_beq (get_or key sep_pos 1) key_sep)
    then none
    else some (p, c, get_be (drop (sep_pos + 1) key))

unfoldable pub decode_class_key : Bytes → Option (Bytes × Bytes)
decode_class_key key =
    if ltb (length key) 1 || not (nat_beq (get_or key 0 0) ns_class)
    then none
    else some (split_scope (drop 1 key))

unfoldable pub scope_key : Bytes → Bytes → Bytes
scope_key p c = p ++ (key_sep ∷ c)

unfoldable pub key_of : WalEntry → Bytes
unfolding class_key object_key
key_of (wal_entry op_create_class p c i d t s) = class_key p c
key_of (wal_entry op_drop_class p c i d t s) = class_key p c
key_of (wal_entry o p c i d t s) = object_key p c i
