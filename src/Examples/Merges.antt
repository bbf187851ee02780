-- ===== src/Examples/Merges.antt =====
-- A merge of two base pairs with a deletion and a new value.
use zadodb.Prelude.{refl, List, [], ◌∷◌, true, false}
use zadodb.Prelude.Dict.{Dict}
use zadodb.Bytes.{Bytes, compare_bytes}
use zadodb.Bytes.Order.{bytes_eq}
use zadodb.Checkpoint.{Delta}
use zadodb.Bytes.Sorted.{Sorted}

abbrev pub base : Dict Bytes Bytes
base = (2 ∷ [], 7 ∷ []) ∷ (5 ∷ [], 8 ∷ []) ∷ []

abbrev pub deltas : List (Bytes × Delta)
deltas =
    (2 ∷ [], record { data_of = []; deleted = true })
    ∷ (3 ∷ [], record { data_of = 9 ∷ []; deleted = false })
    ∷ []

pub base-Sorted : Sorted base
unfolding compare_bytes
base-Sorted = ((refl, tt), (tt, tt))

pub deltas-Sorted : Sorted deltas
unfolding compare_bytes
deltas-Sorted = ((refl, tt), (tt, tt))
