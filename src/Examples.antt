-- ===== src/Examples.antt =====
-- Concrete parameters and data for the examples: a checksum, an encoding of entries, a small log.
pub mod Logs
pub mod Pages
pub mod Trees
pub mod Objects
pub mod Boots
pub mod Merges
pub mod Loads
pub mod Checkpoints
pub mod Databases
pub mod Calls
pub mod Expressions
pub mod Http
pub mod Settings
pub mod Snapshots
pub mod Classes
use zadodb.Prelude.{
  ℕ, zero, suc, ◌+◌, ◌-◌, ◌%◌, ◌^◌, ◌<◌, ◌≡◌, refl, sym, ap, arith, Option, none, some, List, [],
  ◌∷◌, ◌++◌, length, take, drop,
}
use zadodb.Prelude.{take_append, drop_append}
use zadodb.Bytes.{Bytes}
use zadodb.Wal.{
  WalEntry, wal_entry, OpType, op_put, op_delete, op_create_class, op_drop_class, op_batch,
  op_unknown, no_subs, sub,
}
use zadodb.Wal.Log.{Crc}
use zadodb.Wal.Codec.{Codec}

abbrev pub sum : Bytes → ℕ
sum [] = 0
sum (b ∷ bs) = b + sum bs

-- A checksum that adds bytes up.
abbrev pub adding : Crc
adding = record {
  checksum = λ d. sum d % 2 ^ 32;
  update = λ c d. (c + sum d) % 2 ^ 32;
  checksum_bound = λ d. omega arith;
  update_bound = λ c d. omega arith;
}

abbrev pub code : OpType → ℕ
code op_put = 0
code op_delete = 1
code op_create_class = 2
code op_drop_class = 3
code op_batch = 4
code (op_unknown n) = suc (suc (suc (suc (suc n))))

abbrev pub op_of : ℕ → OpType
op_of zero = op_put
op_of (suc zero) = op_delete
op_of (suc (suc zero)) = op_create_class
op_of (suc (suc (suc zero))) = op_drop_class
op_of (suc (suc (suc (suc zero)))) = op_batch
op_of (suc (suc (suc (suc (suc n))))) = op_unknown n

-- An encoding of entries without sub-entries.
abbrev pub write_entry : WalEntry → Option Bytes
write_entry (wal_entry o p c i d t no_subs) =
    some (code o ∷ i ∷ t ∷ length p ∷ length c ∷ (p ++ (c ++ d)))
write_entry (wal_entry o p c i d t (sub x xs)) = none

abbrev pub parse_entry : Bytes → Option WalEntry
parse_entry (o ∷ i ∷ t ∷ np ∷ nc ∷ bs) =
    some
      (wal_entry (op_of o) (take np bs) (take nc (drop np bs)) i (drop nc (drop np bs)) t no_subs)
parse_entry bs = none

op_of-code : (o : OpType) → op_of (code o) ≡ o
op_of-code op_put = refl
op_of-code op_delete = refl
op_of-code op_create_class = refl
op_of-code op_drop_class = refl
op_of-code op_batch = refl
op_of-code (op_unknown n) = refl

pub parse_entry-write_entry :
    (e : WalEntry) (b : Bytes) → write_entry e ≡ some b → parse_entry b ≡ some e
parse_entry-write_entry (wal_entry o p c i d t no_subs) b h =
    let out : code o ∷ i ∷ t ∷ length p ∷ length c ∷ (p ++ (c ++ d)) ≡ b = ground arith in
    rw (← out) (
      rw
        (
          take_append p (c ++ d) _ refl,
          drop_append p (c ++ d) _ refl,
          take_append c d _ refl,
          drop_append c d _ refl,
          op_of-code o,
        )
        refl)
parse_entry-write_entry (wal_entry o p c i d t (sub x xs)) b h = ground arith

-- A codec for the entries that single writes log.
abbrev pub plain : Codec
plain = record {
  marshal = write_entry;
  unmarshal = parse_entry;
  unmarshal-marshal = parse_entry-write_entry;
}
