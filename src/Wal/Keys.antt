-- ===== src/Wal/Keys.antt =====
-- The keys of record.go are read back, are distinct for distinct objects, and sort by id.
use zadodb.Prelude.{ℕ, suc, ◌+◌, ◌-◌, ◌^◌, ◌<◌, compare}
use zadodb.Prelude.{◌≡◌, refl, ap, ◌∙◌, arith, append_assoc, All}
use zadodb.Prelude.{none, some, [], ◌∷◌, ◌++◌, length, length-append}
use zadodb.Prelude.{drop, take_append, get_or}
use zadodb.Bytes.{Bytes, put_be, get_be, compare_bytes}
use zadodb.Bytes.Order.{compare_bytes_front}
use zadodb.Bytes.Endian.{length-put_be, get_be-put_be, compare_bytes-put_be}
use zadodb.Wal.{scope, class_key, object_key, index_zero, split_scope}
use zadodb.Wal.{ns_object, key_sep, decode_object_key, decode_class_key, scope_key}

-- Names hold no 0x00.
abbrev pub IsName : Bytes → Type 0
IsName = All (λ b. 0 < b)

index_zero-name : (c : Bytes) → IsName c → index_zero c ≡ none
unfolding index_zero
index_zero-name [] h = refl
index_zero-name (b ∷ bs) h = ground (arith, index_zero-name bs h.1)

index_zero-sep : (p c : Bytes) → IsName p → index_zero (p ++ (0 ∷ c)) ≡ some (length p)
unfolding index_zero
index_zero-sep [] c h = refl
index_zero-sep (b ∷ bs) c h = ground (arith, index_zero-sep bs c h.1)

drop_sep : (p c : Bytes) → drop (length p + 1) (p ++ (0 ∷ c)) ≡ c
drop_sep [] c = refl
drop_sep (b ∷ p) c = drop_suc b (length p) (p ++ (0 ∷ c)) ∙ drop_sep p c
  where
    drop_suc : (x n : ℕ) (xs : Bytes) → drop (suc n + 1) (x ∷ xs) ≡ drop (n + 1) xs
    drop_suc x n xs = let e : suc n + 1 ≡ suc (n + 1) = omega arith in rw e

pub split_scope-sep : (p c : Bytes) → IsName p → split_scope (p ++ (0 ∷ c)) ≡ (p, c)
unfolding split_scope
split_scope-sep p c hp =
    ground (arith, index_zero-sep p c hp, take_append p (0 ∷ c) (length p) refl, drop_sep p c)

-- The body of a key gives back its project and class.
split_scope-scope : (p c : Bytes) → IsName p → IsName c → split_scope (scope p ++ c) ≡ (p, c)
unfolding scope
split_scope-scope [] c hp hc = unfold split_scope in rw (index_zero-name c hc)
split_scope-scope (b ∷ p) c hp hc =
    rw (append_assoc (b ∷ p) (0 ∷ []) c) (split_scope-sep (b ∷ p) c hp)

-- Scope keys that agree, of projects without 0x00, join the same project and class.
pub scope_key_inj :
    (p c p' c' : Bytes)
    → IsName p
    → IsName p'
    → scope_key p c ≡ scope_key p' c'
    → (p ≡ p') × (c ≡ c')
unfolding scope_key
scope_key_inj p c p' c' h h' e =
    ground (arith, split_scope-sep p c h, split_scope-sep p' c' h', ap split_scope e)

-- The key of a class, of names without 0x00, is read back to its project and class.
pub decode_class_key-class_key :
    (p c : Bytes) → IsName p → IsName c → decode_class_key (class_key p c) ≡ some (p, c)
unfolding decode_class_key class_key
decode_class_key-class_key p c hp hc = ground (arith, split_scope-scope p c hp hc)

-- An object key, cut where `decode_object_key` cuts it.
object_key_parts :
    (p c : Bytes) (id : ℕ)
    → object_key p c id ≡ ns_object ∷ ((scope p ++ c) ++ (key_sep ∷ put_be 8 id))
unfolding object_key
object_key_parts p c id = rw append_assoc

get_or-append : (xs ys : Bytes) (d : ℕ) → get_or (xs ++ ys) (length xs) d ≡ get_or ys 0 d
get_or-append [] [] d = refl
get_or-append [] (y ∷ ys) d = refl
get_or-append (x ∷ xs) ys d = get_or-append xs ys d

drop_key :
    (body tail : Bytes)
    → drop (suc (length body) + 1) (ns_object ∷ (body ++ (key_sep ∷ tail))) ≡ tail
drop_key body tail =
    let e : suc (length body) + 1 ≡ suc (length body + 1) = omega arith in rw e (drop_sep body tail)

decode_parts :
    (body tail : Bytes) (p c : Bytes)
    → length tail ≡ 8
    → split_scope body ≡ (p, c)
    → decode_object_key (ns_object ∷ (body ++ (key_sep ∷ tail))) ≡ some (p, c, get_be tail)
unfolding decode_object_key
decode_parts body tail p c h e =
    let total : length (body ++ (key_sep ∷ tail)) ≡ length body + 9 =
      omega (arith, length-append body (key_sep ∷ tail)) in
    let at : suc (length (body ++ (key_sep ∷ tail))) - 9 ≡ suc (length body) = omega arith in
    let one : suc (length body) - 1 ≡ length body = omega arith in
    rw (at, get_or-append body (key_sep ∷ tail) 1, one, take_append body (key_sep ∷ tail) _ refl, e)
      (rw (drop_key body tail) (ground arith))

-- The key of an object, of names without 0x00 and an id below 2^64, is read back to its project, class
-- and id.
pub decode_object_key-object_key :
    (p c : Bytes) (id : ℕ)
    → IsName p
    → IsName c
    → id < 2 ^ 64
    → decode_object_key (object_key p c id) ≡ some (p, c, id)
decode_object_key-object_key p c id hp hc h = rw (object_key_parts p c id) (
    decode_parts (scope p ++ c) (put_be 8 id) p c (length-put_be 8 id) (split_scope-scope p c hp hc)
    ∙ ap (λ i. some (p, c, i)) (get_be-put_be 8 id h))

-- Within a class the object keys of ids below 2^64 sort as the ids.
pub compare_bytes-object_key :
    (p c : Bytes) (a b : ℕ)
    → a < 2 ^ 64
    → b < 2 ^ 64
    → compare_bytes (object_key p c a) (object_key p c b) ≡ compare a b
compare_bytes-object_key p c a b ha hb =
    rw (object_key_parts p c a, object_key_parts p c b)
      (compare_bytes_front (ns_object ∷ (scope p ++ c)) (key_sep ∷ put_be 8 a)
          (key_sep ∷ put_be 8 b)
        ∙ compare_bytes_front (key_sep ∷ []) (put_be 8 a) (put_be 8 b)
        ∙ compare_bytes-put_be 8 a b ha hb)
