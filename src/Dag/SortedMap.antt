-- ===== src/Dag/SortedMap.antt =====
-- dag/sortedmap.go: `sortedMap.appendCBOR`, a map on the wire with its keys in order.
use scionic_merkle_tree_go.Common.{
  ℕ, ◌≡◌, refl, sym, ap, ◌∙◌, Bool, false, ◌&&◌, Option, some, none, List, [], ◌∷◌, ◌++◌, map,
  Bytes, length, ltb, ◌==◌, if◌then◌else◌, bytes_eq, bytes_lt, Result, ok, ◌>>=◌, GoMap, keys,
  lookup, has_key, insert_sorted, sort_strings, arith, inl, inr, Bool-cases, bytes_eq_refl,
  eq_of_bytes_eq, has_string,
}
use scionic_merkle_tree_go.Tree.Sets.{
  IsDistinct, SameStrings, has_string-sort_strings, sort_strings-IsStrict, IsStrict-unique,
}
use scionic_merkle_tree_go.Dag.Cbor.{
  major_type_map, cbor_null, append_cbor_head, append_cbor_text_string, Value, append_cbor_value,
}

-- Shorter keys first, and keys of one length by their bytes.
unfoldable pub key_lt : Bytes → Bytes → Bool
key_lt a b = if length a == length b then bytes_lt a b else ltb (length a) (length b)

unfoldable pub insert_key : Bytes → List Bytes → List Bytes
unfolding key_lt
insert_key k [] = k ∷ []
insert_key k (j ∷ js) = if key_lt j k then j ∷ insert_key k js else k ∷ j ∷ js

-- `sort.Slice(keys, …)`
unfoldable pub sort_keys : List Bytes → List Bytes
unfolding insert_key
sort_keys [] = []
sort_keys (k ∷ ks) = insert_key k (sort_keys ks)

module _ {E A B : Type 0} (marshal : B → Result E Bytes) (value_of : A → Value E B) where
  -- `appendCBORValue(dst, m[key])`, for a key that the map has.
  unfoldable pub append_entry : Bytes → Option A → Result E Bytes
  unfolding append_cbor_value
  append_entry dst none = ok dst
  append_entry dst (some value) = append_cbor_value marshal dst (value_of value)

  -- `for _, key := range keys`
  unfoldable pub append_keys : GoMap A → Bytes → List Bytes → Result E Bytes
  unfolding append_entry append_cbor_text_string lookup
  append_keys m dst [] = ok dst
  append_keys m dst (key ∷ ks) = do
    next ← append_entry (append_cbor_text_string dst key) (lookup key m)
    append_keys m next ks

  -- `sortedMap.appendCBOR`
  unfoldable pub append_sorted_map : Bytes → Option (GoMap A) → Result E Bytes
  unfolding append_keys append_cbor_head sort_keys
  append_sorted_map dst none = ok (dst ++ cbor_null ∷ [])
  append_sorted_map dst (some m) =
      let ks = sort_keys (keys m) in
      append_keys m (append_cbor_head dst major_type_map (length ks)) ks

-- A key with its length in front: the order of the keys is that of these strings.
abbrev ranked : Bytes → Bytes
ranked k = length k ∷ k

bytes_lt-ranked : (a b : Bytes) → bytes_lt (ranked a) (ranked b) ≡ key_lt a b
unfolding key_lt bytes_lt
bytes_lt-ranked a b = ground arith

map-insert_key :
    (k : Bytes) (ks : List Bytes)
    → map ranked (insert_key k ks) ≡ insert_sorted (ranked k) (map ranked ks)
unfolding insert_key insert_sorted
map-insert_key k [] = refl
map-insert_key k (j ∷ js) = elim (Bool-cases (key_lt j k)) [
  | inl before ↦ rw (bytes_lt-ranked j k, before) (ap (◌∷◌ (ranked j)) (map-insert_key k js))
  | inr after ↦ rw (bytes_lt-ranked j k, after) refl
]

map-sort_keys : (ks : List Bytes) → map ranked (sort_keys ks) ≡ sort_strings (map ranked ks)
unfolding sort_keys sort_strings
map-sort_keys [] = refl
map-sort_keys (k ∷ ks) =
    map-insert_key k (sort_keys ks) ∙ ap (insert_sorted (ranked k)) (map-sort_keys ks)

has_string-ranked :
    (n : ℕ) (k : Bytes) (ks : List Bytes)
    → has_string (n ∷ k) (map ranked ks) ≡ ((length k == n) && has_string k ks)
unfolding has_string bytes_eq
has_string-ranked n k [] = ground arith
has_string-ranked n k (j ∷ js) = elim (Bool-cases (bytes_eq j k)) [
  | inl same ↦
      let equal : j ≡ k = eq_of_bytes_eq j k same in
      rw (equal, bytes_eq_refl k, has_string-ranked n k js) (ground arith)
  | inr differ ↦ rw (differ, has_string-ranked n k js) (ground arith)
]

ranked-IsDistinct : (ks : List Bytes) → IsDistinct ks → IsDistinct (map ranked ks)
ranked-IsDistinct [] h = tt
ranked-IsDistinct (k ∷ ks) h =
    (has_string-ranked (length k) k ks ∙ rw h.0 (ground arith), ranked-IsDistinct ks h.1)

never_empty : (ks : List Bytes) → has_string [] (map ranked ks) ≡ false
unfolding has_string bytes_eq
never_empty [] = refl
never_empty (k ∷ ks) = never_empty ks

ranked-SameStrings :
    (xs ys : List Bytes) → SameStrings xs ys → SameStrings (map ranked xs) (map ranked ys)
ranked-SameStrings xs ys same [] = never_empty xs ∙ sym (never_empty ys)
ranked-SameStrings xs ys same (n ∷ k) =
    has_string-ranked n k xs ∙ rw (same k) refl ∙ sym (has_string-ranked n k ys)

unranked : (xs ys : List Bytes) → map ranked xs ≡ map ranked ys → xs ≡ ys
unranked [] [] e = refl
unranked [] (y ∷ ys) e = absurd (cc e)
unranked (x ∷ xs) [] e = absurd (cc e)
unranked (x ∷ xs) (y ∷ ys) e =
    let heads : x ≡ y = cc e in
    let tails : map ranked xs ≡ map ranked ys = cc e in rw (heads, unranked xs ys tails) refl

sort_keys_unique :
    (xs ys : List Bytes)
    → IsDistinct xs
    → IsDistinct ys
    → SameStrings xs ys
    → sort_keys xs ≡ sort_keys ys
sort_keys_unique xs ys distinct_x distinct_y same =
    let rx = map ranked xs in
    let ry = map ranked ys in
    let sorted : sort_strings rx ≡ sort_strings ry =
      IsStrict-unique (sort_strings rx) (sort_strings ry)
        (sort_strings-IsStrict rx (ranked-IsDistinct xs distinct_x))
        (sort_strings-IsStrict ry (ranked-IsDistinct ys distinct_y))
        (λ k.
          has_string-sort_strings k rx
          ∙ ranked-SameStrings xs ys same k
          ∙ sym (has_string-sort_strings k ry)) in
    unranked (sort_keys xs) (sort_keys ys) (map-sort_keys xs ∙ sorted ∙ sym (map-sort_keys ys))

pub has_string-keys_of {ℓ} :
    {V : Type ℓ} (k : Bytes) (m : GoMap V) → has_string k (keys m) ≡ has_key k m
unfolding has_string lookup
has_string-keys_of k [] = refl
has_string-keys_of k ((j, v) ∷ m) = elim (Bool-cases (bytes_eq j k)) [
  | inl same ↦ rw same refl
  | inr other ↦ rw other (has_string-keys_of k m)
]

module _ {E A B : Type 0} (marshal : B → Result E Bytes) (value_of : A → Value E B) where
  -- The values under a key are written alike.
  abbrev pub SameEntries : GoMap A → GoMap A → Type 0
  SameEntries xs ys =
      (k dst : Bytes)
      → append_entry marshal value_of dst (lookup k xs)
        ≡ append_entry marshal value_of dst (lookup k ys)

  append_keys-SameEntries :
      (xs ys : GoMap A) (dst : Bytes) (ks : List Bytes)
      → SameEntries xs ys
      → append_keys marshal value_of xs dst ks ≡ append_keys marshal value_of ys dst ks
  unfolding append_keys
  append_keys-SameEntries xs ys dst [] same = refl
  append_keys-SameEntries xs ys dst (k ∷ ks) same =
      let written = append_cbor_text_string dst k in
      ap (λ r. r >>= λ next. append_keys marshal value_of xs next ks) (same k written)
      ∙ ap (λ f. append_entry marshal value_of written (lookup k ys) >>= f)
          (λ i next. append_keys-SameEntries xs ys next ks same i)

  -- The bytes of a map do not depend on its iteration order: two maps with the same keys, whose
  -- values are written alike under each key, have the same bytes. The keys of a map are distinct.
  pub append_sorted_map-order :
      (dst : Bytes) (xs ys : GoMap A)
      → IsDistinct (keys xs)
      → IsDistinct (keys ys)
      → ((k : Bytes) → has_key k xs ≡ has_key k ys)
      → SameEntries xs ys
      → append_sorted_map marshal value_of dst (some xs)
        ≡ append_sorted_map marshal value_of dst (some ys)
  unfolding append_sorted_map
  append_sorted_map-order dst xs ys distinct_x distinct_y same_keys same =
      let sorted : sort_keys (keys xs) ≡ sort_keys (keys ys) =
        sort_keys_unique (keys xs) (keys ys) distinct_x distinct_y
          (λ k. has_string-keys_of k xs ∙ same_keys k ∙ sym (has_string-keys_of k ys)) in
      ap
        (λ ks. append_keys marshal value_of xs (append_cbor_head dst major_type_map (length ks)) ks)
        sorted
      ∙ append_keys-SameEntries xs ys
          (append_cbor_head dst major_type_map (length (sort_keys (keys ys)))) (sort_keys (keys ys))
          same
