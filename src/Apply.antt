-- ===== src/Apply.antt =====
-- internal/storage/apply/apply.go: a log entry applied to a tree.
use zadodb.Prelude.{ℕ, List, [], ◌∷◌}
use zadodb.Bytes.{Bytes}
use zadodb.Errors.{Result, ok, err, unknown_op, ◌>>=◌}
use zadodb.Wal.{
  WalEntry, OpType, op_put, op_delete, op_create_class, op_drop_class, op_batch, op_unknown, op,
  key_of, payload, flatten,
}
use zadodb.Btree.Store.{PageStore}
use zadodb.Btree.Tree.{insert, delete}

module _ {S : Type 0} (st : PageStore S) (fuel : ℕ) where
  one_of : OpType → S → ℕ → Bytes → Bytes → Result (ℕ × S)
  one_of op_put s root key val = insert st fuel s root key val
  one_of op_create_class s root key val = insert st fuel s root key val
  one_of op_delete s root key val = delete st fuel s root key
  one_of op_drop_class s root key val = delete st fuel s root key
  one_of op_batch s root key val = err unknown_op
  one_of (op_unknown n) s root key val = err unknown_op

  -- `one`: the new root and the store.
  unfoldable pub one : S → ℕ → WalEntry → Result (ℕ × S)
  unfolding one_of
  one s root e = one_of (op e) s root (key_of e) (payload e)

  unfoldable pub apply_all : S → ℕ → List WalEntry → Result (ℕ × S)
  apply_all s root [] = ok (root, s)
  apply_all s root (x ∷ xs) = do (root', s') ← one s root x; apply_all s' root' xs

  -- `Entry`.
  unfoldable pub apply_entry_to : S → ℕ → WalEntry → Result (ℕ × S)
  unfolding apply_all
  apply_entry_to s root e = apply_all s root (flatten e)
