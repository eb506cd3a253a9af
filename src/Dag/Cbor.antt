-- ===== src/Dag/Cbor.antt =====
-- dag/sortedmap.go: the heads, strings and maps that the wire encoding is written with.
use scionic_merkle_tree_go.Common.{
  ℕ, ◌*◌, ◌/◌, ◌%◌, ◌^◌, bit_or, Option, some, none, List, [], ◌∷◌, ◌++◌, Bytes, length, ltb, leb,
  if◌then◌else◌, Result, ok, ◌>>=◌,
}

-- The three major types that are written by hand.
pub data MajorType : Type 0 where
  major_type_byte_string major_type_text_string major_type_map : MajorType

abbrev pub code : MajorType → ℕ
code major_type_byte_string = 0x40
code major_type_text_string = 0x60
code major_type_map = 0xa0

abbrev pub cbor_null : ℕ
cbor_null = 0xf6

-- `byte(argument >> (8 * n))`
abbrev pub byte_at : ℕ → ℕ → ℕ
byte_at argument n = argument / 2 ^ (8 * n) % 256

-- `appendCBORHead`
unfoldable pub append_cbor_head : Bytes → MajorType → ℕ → Bytes
append_cbor_head dst major argument =
    if ltb argument 24
    then dst ++ bit_or (code major) (byte_at argument 0) ∷ []
    else if leb argument 0xff
    then dst ++ bit_or (code major) 24 ∷ byte_at argument 0 ∷ []
    else if leb argument 0xffff
    then dst ++ bit_or (code major) 25 ∷ byte_at argument 1 ∷ byte_at argument 0 ∷ []
    else if leb argument 0xffffffff
    then dst
      ++ bit_or (code major) 26
        ∷ byte_at argument 3
        ∷ byte_at argument 2
        ∷ byte_at argument 1
        ∷ byte_at argument 0
        ∷ []
    else dst
      ++ bit_or (code major) 27
        ∷ byte_at argument 7
        ∷ byte_at argument 6
        ∷ byte_at argument 5
        ∷ byte_at argument 4
        ∷ byte_at argument 3
        ∷ byte_at argument 2
        ∷ byte_at argument 1
        ∷ byte_at argument 0
        ∷ []

-- `appendCBORTextString`
unfoldable pub append_cbor_text_string : Bytes → Bytes → Bytes
unfolding append_cbor_head
append_cbor_text_string dst value =
    append_cbor_head dst major_type_text_string (length value) ++ value

-- The cases of `appendCBORValue`: a string, a byte slice that may be nil, a value that appends
-- itself, and any other, of which the encoder of the CBOR package gives the bytes.
pub data Value {ℓ} (E : Type 0) (A : Type ℓ) : Type ℓ where
  text : Bytes → Value E A
  byte_slice : Option Bytes → Value E A
  cbor_appender : (Bytes → Result E Bytes) → Value E A
  other_value : A → Value E A

module _ {ℓ} {E : Type 0} {A : Type ℓ} (marshal : A → Result E Bytes) where
  -- `appendCBORValue`
  unfoldable pub append_cbor_value : Bytes → Value E A → Result E Bytes
  unfolding append_cbor_text_string append_cbor_head
  append_cbor_value dst (text typed) = ok (append_cbor_text_string dst typed)
  append_cbor_value dst (byte_slice none) = ok (dst ++ cbor_null ∷ [])
  append_cbor_value dst (byte_slice (some typed)) =
      ok (append_cbor_head dst major_type_byte_string (length typed) ++ typed)
  append_cbor_value dst (cbor_appender append) = append dst
  append_cbor_value dst (other_value value) = do encoded ← marshal value; ok (dst ++ encoded)

  -- `for _, pair := range pairs`
  unfoldable pub append_pairs : Bytes → List (Bytes × Value E A) → Result E Bytes
  unfolding append_cbor_text_string append_cbor_value
  append_pairs dst [] = ok dst
  append_pairs dst ((key, value) ∷ pairs) = do
    next ← append_cbor_value (append_cbor_text_string dst key) value
    append_pairs next pairs

  -- `appendCBORStruct`
  unfoldable pub append_cbor_struct : Bytes → List (Bytes × Value E A) → Result E Bytes
  unfolding append_pairs append_cbor_head
  append_cbor_struct dst pairs =
      append_pairs (append_cbor_head dst major_type_map (length pairs)) pairs
