-- ===== src/Dag/Sorting.antt =====
-- dag/utils.go: the two ways to order a map, and that ordering twice is ordering once.
use scionic_merkle_tree_go.Common.{
  ◌≡◌, refl, ap, true, false, Option, some, none, List, [], ◌∷◌, Bytes, bytes_eq, bytes_lt, GoMap,
  keys, lookup, insert_sorted, sort_strings, inl, inr, Bool-cases, eq_of_bytes_eq, All, has_string,
  All-has_string, bytes_lt_asymm,
}

abbrev pub or_empty : Option Bytes → Bytes
or_empty (some v) = v
or_empty none = []

abbrev pub value_at : GoMap Bytes → Bytes → Bytes
value_at m k = or_empty (lookup k m)

-- `inputMap[key]` for each key in turn.
unfoldable pub pairs_of : GoMap Bytes → List Bytes → List (Bytes × Bytes)
pairs_of m [] = []
pairs_of m (k ∷ ks) = (k, value_at m k) ∷ pairs_of m ks

-- `SortMapForVerification`
unfoldable pub sort_map_for_verification : Option (GoMap Bytes) → Option (List (Bytes × Bytes))
unfolding pairs_of
sort_map_for_verification none = none
sort_map_for_verification (some m) = some (pairs_of m (sort_strings (keys m)))

-- `SortMapByKeys`; the entries of the new map are written in order.
unfoldable pub sort_map_by_keys : Option (GoMap Bytes) → GoMap Bytes
unfolding pairs_of
sort_map_by_keys none = []
sort_map_by_keys (some m) = pairs_of m (sort_strings (keys m))

abbrev pub IsSorted : List Bytes → Type 0
IsSorted [] = Unit {0}
IsSorted (k ∷ []) = Unit {0}
IsSorted (k ∷ j ∷ js) = (bytes_lt j k ≡ false) × IsSorted (j ∷ js)

insert_sorted-IsSorted : (k : Bytes) (ks : List Bytes) → IsSorted ks → IsSorted (insert_sorted k ks)
unfolding insert_sorted
insert_sorted-IsSorted k [] h = tt
insert_sorted-IsSorted k (j ∷ []) h = elim (Bool-cases (bytes_lt j k)) [
  | inl before ↦ rw before (bytes_lt_asymm j k before, tt)
  | inr after ↦ rw after (after, tt)
]
insert_sorted-IsSorted k (j ∷ i ∷ js) h = elim (Bool-cases (bytes_lt j k)) [
  | inr after ↦ rw after (after, h)
  | inl before ↦ rw before (elim (Bool-cases (bytes_lt i k)) [
    | inl more ↦ rw more (h.0, rw more at (insert_sorted-IsSorted k (i ∷ js) h.1))
    | inr done ↦ rw done (bytes_lt_asymm j k before, (done, h.1))
  ])
]

pub sort_strings-IsSorted : (ks : List Bytes) → IsSorted (sort_strings ks)
unfolding sort_strings
sort_strings-IsSorted [] = tt
sort_strings-IsSorted (k ∷ ks) =
    insert_sorted-IsSorted k (sort_strings ks) (sort_strings-IsSorted ks)

sort_strings_sorted : (ks : List Bytes) → IsSorted ks → sort_strings ks ≡ ks
unfolding sort_strings insert_sorted
sort_strings_sorted [] h = refl
sort_strings_sorted (k ∷ []) h = refl
sort_strings_sorted (k ∷ j ∷ js) h = rw (sort_strings_sorted (j ∷ js) h.1, h.0)

keys-pairs_of : (m : GoMap Bytes) (ks : List Bytes) → keys (pairs_of m ks) ≡ ks
unfolding pairs_of
keys-pairs_of m [] = refl
keys-pairs_of m (k ∷ ks) = ap (◌∷◌ k) (keys-pairs_of m ks)

value_at-pairs_of :
    (m : GoMap Bytes) (ks : List Bytes) (k : Bytes)
    → has_string k ks ≡ true
    → value_at (pairs_of m ks) k ≡ value_at m k
unfolding pairs_of lookup has_string
value_at-pairs_of m [] k h = cc
value_at-pairs_of m (j ∷ ks) k h = elim (Bool-cases (bytes_eq j k)) [
  | inl same ↦ rw (same, eq_of_bytes_eq j k same) refl
  | inr other ↦ rw other (value_at-pairs_of m ks k (rw other at h))
]

pairs_of-pairs_of :
    (m : GoMap Bytes) (ks js : List Bytes)
    → All (λ j. has_string j ks ≡ true) js
    → pairs_of (pairs_of m ks) js ≡ pairs_of m js
unfolding pairs_of
pairs_of-pairs_of m ks [] h = refl
pairs_of-pairs_of m ks (j ∷ js) h =
    rw (value_at-pairs_of m ks j h.0, pairs_of-pairs_of m ks js h.1) refl

pub sort_map_for_verification-sort_map_by_keys :
    (m : GoMap Bytes)
    → sort_map_for_verification (some (sort_map_by_keys (some m)))
      ≡ sort_map_for_verification (some m)
unfolding sort_map_for_verification sort_map_by_keys
sort_map_for_verification-sort_map_by_keys m =
    let ks = sort_strings (keys m) in
    rw
      (
        keys-pairs_of m ks,
        sort_strings_sorted ks (sort_strings-IsSorted (keys m)),
        pairs_of-pairs_of m ks ks (All-has_string ks),
      )
      refl

pub sort_map_by_keys_again :
    (m : Option (GoMap Bytes)) → sort_map_by_keys (some (sort_map_by_keys m)) ≡ sort_map_by_keys m
unfolding sort_map_by_keys sort_strings
sort_map_by_keys_again none = refl
sort_map_by_keys_again (some m) =
    let ks = sort_strings (keys m) in
    rw
      (
        keys-pairs_of m ks,
        sort_strings_sorted ks (sort_strings-IsSorted (keys m)),
        pairs_of-pairs_of m ks ks (All-has_string ks),
      )
      refl
