-- ===== src/Dag/CborHead.antt =====
-- dag/sortedmap.go: a head is read back as it was written.
use scionic_merkle_tree_go.Common.{
  ℕ, zero, suc, ◌+◌, ◌-◌, ◌*◌, ◌%◌, ◌^◌, ◌≤◌, ◌<◌, bit_or, ◌≡◌, refl, ap, true, ◌&&◌, Option, some,
  none, [], ◌∷◌, ◌++◌, Bytes, length, take, drop, length-append, ltb, leb, ◌==◌, if◌then◌else◌,
  arith, inl, inr, Bool-cases, ltb→lt, leb→le, or-0x40, or-0x60, or-0xa0,
}
use mathlib.Core.List.{append_assoc}
use scionic_merkle_tree_go.Dag.Cbor.{
  major_type_byte_string, major_type_text_string, major_type_map, MajorType, code, byte_at,
  append_cbor_head, append_cbor_text_string,
}

-- `n` bytes, the first of which weighs most, after those that `acc` stands for.
unfoldable pub read_number : ℕ → ℕ → Bytes → Option (ℕ × Bytes)
read_number zero acc bytes = some (acc, bytes)
read_number (suc n) acc [] = none
read_number (suc n) acc (b ∷ bytes) = read_number n (acc * 256 + b) bytes

abbrev with_major : ℕ → Option (ℕ × Bytes) → Option (ℕ × ℕ × Bytes)
with_major major none = none
with_major major (some (n, rest)) = some (major, n, rest)

-- The argument, for what the low five bits of the first byte are.
unfoldable read_argument : ℕ → ℕ → Bytes → Option (ℕ × ℕ × Bytes)
unfolding read_number
read_argument major info bytes =
    if ltb info 24
    then some (major, info, bytes)
    else if info == 24
    then with_major major (read_number 1 0 bytes)
    else if info == 25
    then with_major major (read_number 2 0 bytes)
    else if info == 26
    then with_major major (read_number 4 0 bytes)
    else if info == 27
    then with_major major (read_number 8 0 bytes)
    else none

-- A head as RFC 8949 describes it: the low five bits of the first byte are the argument, or say in
-- how many bytes it follows. The major type is the first byte without them.
unfoldable pub read_head : Bytes → Option (ℕ × ℕ × Bytes)
unfolding read_argument
read_head [] = none
read_head (b ∷ bytes) = read_argument (b - b % 32) (b % 32) bytes

or_code : (m : MajorType) (n : ℕ) → n < 28 → bit_or (code m) n ≡ code m + n
or_code major_type_byte_string n h = or-0x40 n h
or_code major_type_text_string n h = or-0x60 n h
or_code major_type_map n h = or-0xa0 n h

low_bits : (m : MajorType) (n : ℕ) → n < 28 → ((code m + n) % 32 ≡ n)
low_bits major_type_byte_string n h = omega arith
low_bits major_type_text_string n h = omega arith
low_bits major_type_map n h = omega arith

read_head-or :
    (m : MajorType) (n : ℕ) (bytes : Bytes)
    → n < 28
    → read_head (bit_or (code m) n ∷ bytes) ≡ read_argument (code m) n bytes
unfolding read_head
read_head-or m n bytes h =
    let major : code m + n - n ≡ code m = omega arith in
    rw (or_code m n h, low_bits m n h, major) refl

two_bytes : (n : ℕ) → n ≤ 0xffff → (0 * 256 + byte_at n 1) * 256 + byte_at n 0 ≡ n
two_bytes n h = omega arith

four_bytes :
    (n : ℕ)
    → n ≤ 0xffffffff
    → (((0 * 256 + byte_at n 3) * 256 + byte_at n 2) * 256 + byte_at n 1) * 256 + byte_at n 0 ≡ n
four_bytes n h = omega arith

eight_bytes :
    (n : ℕ)
    → n < 2 ^ 64
    → (((((((0 * 256 + byte_at n 7) * 256 + byte_at n 6) * 256 + byte_at n 5) * 256 + byte_at n 4)
                      * 256
                    + byte_at n 3)
                  * 256
                + byte_at n 2)
              * 256
            + byte_at n 1)
          * 256
        + byte_at n 0
      ≡ n
eight_bytes n h = omega arith

-- A head is read back: the head of an argument below 2 ^ 64, followed by any bytes, is read as the
-- major type, the argument and those bytes.
pub read_head-append_cbor_head :
    (m : MajorType) (argument : ℕ) (rest : Bytes)
    → argument < 2 ^ 64
    → read_head (append_cbor_head [] m argument ++ rest) ≡ some (code m, argument, rest)
unfolding append_cbor_head read_argument
read_head-append_cbor_head m n rest h = elim (Bool-cases (ltb n 24)) [
  | inl direct ↦
      let small : n < 24 = ltb→lt n 24 direct in
      let same : byte_at n 0 ≡ n = omega arith in
      rw (direct, same, read_head-or m n rest (omega arith), direct) refl
  | inr more ↦ elim (Bool-cases (leb n 0xff)) [
    | inl one ↦
        let small : n ≤ 0xff = leb→le n 0xff one in
        rw (more, one, read_head-or m 24 (byte_at n 0 ∷ rest) (omega arith)) (found (omega arith))
    | inr more2 ↦ elim (Bool-cases (leb n 0xffff)) [
      | inl two ↦
          rw (more, more2, two, read_head-or m 25 (byte_at n 1 ∷ byte_at n 0 ∷ rest) (omega arith))
            (found (two_bytes n (leb→le n 0xffff two)))
      | inr more3 ↦ elim (Bool-cases (leb n 0xffffffff)) [
        | inl four ↦
            rw
              (
                more,
                more2,
                more3,
                four,
                read_head-or m 26 (byte_at n 3 ∷ byte_at n 2 ∷ byte_at n 1 ∷ byte_at n 0 ∷ rest)
                    (omega arith),
              )
              (found (four_bytes n (leb→le n 0xffffffff four)))
        | inr more4 ↦
            rw
              (
                more,
                more2,
                more3,
                more4,
                read_head-or m 27
                    (byte_at n 7
                      ∷ byte_at n 6
                      ∷ byte_at n 5
                      ∷ byte_at n 4
                      ∷ byte_at n 3
                      ∷ byte_at n 2
                      ∷ byte_at n 1
                      ∷ byte_at n 0
                      ∷ rest)
                    (omega arith),
              )
              (found (eight_bytes n h))
      ]
    ]
  ]
]
  where
    found :
        {t : ℕ}
        → t ≡ n
        → ◌≡◌ {A = Option (ℕ × ℕ × Bytes)} (some (code m, t, rest)) (some (code m, n, rest))
    found e = ap (λ (t : ℕ). some (code m, t, rest)) e

-- What follows the head of a text string.
abbrev text_after : Option (ℕ × ℕ × Bytes) → Option (Bytes × Bytes)
text_after none = none
text_after (some (major, n, rest)) =
    if (major == 0x60) && leb n (length rest) then some (take n rest, drop n rest) else none

-- A text string as RFC 8949 describes it: a head of the third major type and that many bytes.
unfoldable pub read_text : Bytes → Option (Bytes × Bytes)
unfolding read_head
read_text bytes = text_after (read_head bytes)

append_cbor_head_onto :
    (dst : Bytes) (m : MajorType) (n : ℕ)
    → append_cbor_head dst m n ≡ dst ++ append_cbor_head [] m n
unfolding append_cbor_head
append_cbor_head_onto dst m n = elim (Bool-cases (ltb n 24)) [
  | inl one ↦ rw one refl
  | inr more ↦ elim (Bool-cases (leb n 0xff)) [
    | inl two ↦ rw (more, two) refl
    | inr more2 ↦ elim (Bool-cases (leb n 0xffff)) [
      | inl three ↦ rw (more, more2, three) refl
      | inr more3 ↦ elim (Bool-cases (leb n 0xffffffff)) [
        | inl five ↦ rw (more, more2, more3, five) refl
        | inr nine ↦ rw (more, more2, more3, nine) refl
      ]
    ]
  ]
]

take-append_all : (xs ys : Bytes) → take (length xs) (xs ++ ys) ≡ xs
take-append_all [] ys = refl
take-append_all (x ∷ xs) ys = ap (◌∷◌ x) (take-append_all xs ys)

drop-append_all : (xs ys : Bytes) → drop (length xs) (xs ++ ys) ≡ ys
drop-append_all [] ys = refl
drop-append_all (x ∷ xs) ys = drop-append_all xs ys

read_text_of :
    (bytes value rest : Bytes)
    → read_head bytes ≡ some (0x60, length value, value ++ rest)
    → read_text bytes ≡ some (value, rest)
unfolding read_text
read_text_of bytes value rest e =
    let enough : leb (length value) (length (value ++ rest)) ≡ true =
      ground (arith, length-append value rest) in
    rw (e, enough, take-append_all value rest, drop-append_all value rest) refl

text_string_split :
    (dst value : Bytes)
    → append_cbor_text_string dst value
      ≡ append_cbor_head dst major_type_text_string (length value) ++ value
unfolding append_cbor_text_string
text_string_split dst value = refl

-- A text string of fewer than 2 ^ 64 bytes that is appended to a buffer is read back behind it, with
-- what follows it.
pub read_text-append_cbor_text_string :
    (dst value rest : Bytes)
    → length value < 2 ^ 64
    → (encoded : Bytes) × (append_cbor_text_string dst value ≡ dst ++ encoded)
      × (read_text (encoded ++ rest) ≡ some (value, rest))
read_text-append_cbor_text_string dst value rest h =
    let head = append_cbor_head [] major_type_text_string (length value) in
    (
      head ++ value,
      rw
          (
            text_string_split dst value,
            append_cbor_head_onto dst major_type_text_string (length value),
          )
          (append_assoc dst head value),
      read_text_of ((head ++ value) ++ rest) value rest (
          rw (append_assoc head value rest)
            (read_head-append_cbor_head major_type_text_string (length value) (value ++ rest) h)),
    )
