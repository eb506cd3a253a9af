-- ===== src/Tree/Sets.antt =====
-- Strings in strictly increasing order, as the sorted keys of a map are: one list for each set.
use scionic_merkle_tree_go.Common.{
  ◌≡◌, refl, sym, ◌∙◌, true, false, List, [], ◌∷◌, Bytes, if◌then◌else◌, bytes_eq, bytes_lt,
  insert_sorted, sort_strings, arith, inl, inr, Bool-cases, bytes_eq_refl, eq_of_bytes_eq,
  bytes_eq_iff, All, has_string, All-insert_sorted, bytes_lt_irrefl, bytes_lt_trans, bytes_lt_total,
}

abbrev pub IsDistinct : List Bytes → Type 0
IsDistinct [] = Unit {0}
IsDistinct (k ∷ ks) = (has_string k ks ≡ false) × IsDistinct ks

abbrev pub IsStrict : List Bytes → Type 0
IsStrict [] = Unit {0}
IsStrict (k ∷ ks) = All (λ j. bytes_lt k j ≡ true) ks × IsStrict ks

-- The same strings, however often and in whatever order.
abbrev pub SameStrings : List Bytes → List Bytes → Type 0
SameStrings xs ys = (k : Bytes) → has_string k xs ≡ has_string k ys

has_string-insert_sorted :
    (j k : Bytes) (ks : List Bytes)
    → has_string j (insert_sorted k ks) ≡ (if bytes_eq k j then true else has_string j ks)
unfolding has_string insert_sorted
has_string-insert_sorted j k [] = refl
has_string-insert_sorted j k (i ∷ ks) = ground (arith, has_string-insert_sorted j k ks)

pub has_string-sort_strings :
    (j : Bytes) (ks : List Bytes) → has_string j (sort_strings ks) ≡ has_string j ks
unfolding has_string sort_strings
has_string-sort_strings j [] = refl
has_string-sort_strings j (k ∷ ks) =
    rw (has_string-insert_sorted j k (sort_strings ks), has_string-sort_strings j ks) refl

All-above :
    (k j : Bytes) (ks : List Bytes)
    → bytes_lt k j ≡ true
    → All (λ i. bytes_lt j i ≡ true) ks
    → All (λ i. bytes_lt k i ≡ true) ks
All-above k j [] h all = tt
All-above k j (i ∷ ks) h all = (bytes_lt_trans k j i h all.0, All-above k j ks h all.1)

insert_sorted-IsStrict :
    (k : Bytes) (ks : List Bytes)
    → has_string k ks ≡ false
    → IsStrict ks
    → IsStrict (insert_sorted k ks)
unfolding has_string insert_sorted
insert_sorted-IsStrict k [] new strict = (tt, tt)
insert_sorted-IsStrict k (j ∷ ks) new strict = elim (Bool-cases (bytes_eq j k)) [
  | inl equal ↦ absurd (cc (rw equal at new))
  | inr other ↦ elim (Bool-cases (bytes_lt j k)) [
    | inl before ↦ rw before (
      All-insert_sorted (λ i. bytes_lt j i ≡ true) k ks before strict.0,
      insert_sorted-IsStrict k ks (rw other at new) strict.1,
    )
    | inr after ↦
        let first : bytes_lt k j ≡ true = elim (Bool-cases (bytes_lt k j)) [
          | inl below ↦ below
          | inr neither ↦
              absurd (cc (sym other ∙ (bytes_eq_iff j k).1 (bytes_lt_total j k after neither)))
        ] in
        rw after ((first, All-above k j ks first strict.0), strict)
  ]
]

pub sort_strings-IsStrict : (ks : List Bytes) → IsDistinct ks → IsStrict (sort_strings ks)
unfolding sort_strings
sort_strings-IsStrict [] h = tt
sort_strings-IsStrict (k ∷ ks) h =
    insert_sorted-IsStrict k (sort_strings ks) (has_string-sort_strings k ks ∙ h.0)
      (sort_strings-IsStrict ks h.1)

absent_below :
    (k : Bytes) (ks : List Bytes) → All (λ j. bytes_lt k j ≡ true) ks → has_string k ks ≡ false
unfolding has_string
absent_below k [] all = refl
absent_below k (j ∷ ks) all = elim (Bool-cases (bytes_eq j k)) [
  | inl equal ↦
      let below : bytes_lt k k ≡ true = rw (eq_of_bytes_eq j k equal) at all.0 in
      absurd (cc (sym below ∙ bytes_lt_irrefl k))
  | inr other ↦ rw other (absent_below k ks all.1)
]

-- The least string of one list is not below that of the other.
head_not_below :
    (x y : Bytes) (xs ys : List Bytes)
    → All (λ j. bytes_lt y j ≡ true) ys
    → SameStrings (x ∷ xs) (y ∷ ys)
    → bytes_lt x y ≡ false
unfolding has_string
head_not_below x y xs ys all same = elim (Bool-cases (bytes_lt x y)) [
  | inr above ↦ above
  | inl below ↦
      let absent = absent_below x (y ∷ ys) (below, All-above x y ys below all) in
      let present : has_string x (x ∷ xs) ≡ true = rw (bytes_eq_refl x) refl in
      absurd (cc (sym absent ∙ sym (same x) ∙ present))
]

pub IsStrict-unique : (xs ys : List Bytes) → IsStrict xs → IsStrict ys → SameStrings xs ys → xs ≡ ys
unfolding has_string
IsStrict-unique [] [] sx sy same = refl
IsStrict-unique [] (y ∷ ys) sx sy same = absurd (cc (rw (bytes_eq_refl y) at (same y)))
IsStrict-unique (x ∷ xs) [] sx sy same = absurd (cc (rw (bytes_eq_refl x) at (same x)))
IsStrict-unique (x ∷ xs) (y ∷ ys) sx sy same =
    let one : x ≡ y =
      bytes_lt_total x y (head_not_below x y xs ys sy.0 same)
        (head_not_below y x ys xs sx.0 (λ k. sym (same k))) in
    let rest : xs ≡ ys = IsStrict-unique xs ys sx.1 sy.1 (tails one) in rw (one, rest) refl
  where
    tails : x ≡ y → SameStrings xs ys
    tails one k = elim (Bool-cases (bytes_eq x k)) [
      | inl equal ↦
          let key : x ≡ k = eq_of_bytes_eq x k equal in
          let no_x : has_string k xs ≡ false = rw key at (absent_below x xs sx.0) in
          let no_y : has_string k ys ≡ false = rw (← one, key) at (absent_below y ys sy.0) in
          no_x ∙ sym no_y
      | inr other ↦ rw (← one, other) at (same k)
    ]
