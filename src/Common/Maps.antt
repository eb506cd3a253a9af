-- ===== src/Common/Maps.antt =====
-- A Go `map[string]V` as the list of its entries, in the order of one iteration. Keys are distinct.
use Prim.Native.Nat.{◌+◌}
use mathlib.Core.Path.{◌≡◌, refl, ◌∙◌}
use mathlib.Core.Logic.{inl, inr}
use mathlib.Core.Bool.{Bool, true, false}
use mathlib.Core.Option.{Option, none, some}
use mathlib.Core.List.{List, [], ◌∷◌}
use native.Mathlib.Omega.{arith}
use scionic_merkle_tree_go.Common.Tests.{if◌then◌else◌, Bool-cases}
use scionic_merkle_tree_go.Common.Lists.{All, length}
use scionic_merkle_tree_go.Common.Text.{
  eq_of_bytes_eq, bytes_eq_refl, Bytes, bytes_eq, bytes_lt, bytes_eq_iff,
}

abbrev pub GoMap {ℓ} : Type ℓ → Type ℓ
GoMap V = List (Bytes × V)

module _ {ℓ} {V : Type ℓ} where
  abbrev pub keys : GoMap V → List Bytes
  keys [] = []
  keys ((k, v) ∷ m) = k ∷ keys m

  unfoldable pub lookup : Bytes → GoMap V → Option V
  lookup k [] = none
  lookup k ((j, v) ∷ m) = if bytes_eq j k then some v else lookup k m

  -- `m[k] = v`
  unfoldable pub insert : Bytes → V → GoMap V → GoMap V
  insert k v [] = (k, v) ∷ []
  insert k v ((j, w) ∷ m) = if bytes_eq j k then (j, v) ∷ m else (j, w) ∷ insert k v m

  abbrev pub is_some : Option V → Bool
  is_some none = false
  is_some (some v) = true

  -- `_, ok := m[k]`
  abbrev pub has_key : Bytes → GoMap V → Bool
  has_key k m = is_some (lookup k m)

  pub lookup-insert :
      (put asked : Bytes) (new : V) (entries : GoMap V)
      → lookup asked (insert put new entries)
        ≡ (if bytes_eq put asked then some new else lookup asked entries)
  unfolding lookup insert
  lookup-insert put asked new [] = refl
  lookup-insert put asked new ((at, old) ∷ rest) = ground (
    arith,
    lookup-insert put asked new rest,
    bytes_eq_iff at asked,
    bytes_eq_iff at put,
    bytes_eq_iff put asked,
  )

  pub has_key-insert :
      (put asked : Bytes) (v : V) (m : GoMap V)
      → has_key asked (insert put v m) ≡ (if bytes_eq put asked then true else has_key asked m)
  has_key-insert put asked v m = elim (Bool-cases (bytes_eq put asked)) [
    | inl same ↦ rw (lookup-insert put asked v m, same) refl
    | inr other ↦ rw (lookup-insert put asked v m, other) refl
  ]

  -- No key is lost.
  pub has_key-insert_old :
      (put asked : Bytes) (v : V) (m : GoMap V)
      → has_key asked m ≡ true
      → has_key asked (insert put v m) ≡ true
  has_key-insert_old put asked v m h = has_key-insert put asked v m ∙ either (bytes_eq put asked)
    where
      either : (t : Bool) → (if t then true else has_key asked m) ≡ true
      either true = refl
      either false = h

  pub has_key-insert_new : (put : Bytes) (v : V) (m : GoMap V) → has_key put (insert put v m) ≡ true
  has_key-insert_new put v m = has_key-insert put put v m ∙ rw (bytes_eq_refl put) refl

  pub insert_absent :
      (k : Bytes) (v : V) (m : GoMap V) → lookup k m ≡ none → length (insert k v m) ≡ length m + 1
  unfolding lookup insert
  insert_absent k v [] h = omega arith
  insert_absent k v ((i, w) ∷ m) h = ground (arith, insert_absent k v m)

-- Insertion into a list in increasing order; an equal string goes in front.
unfoldable pub insert_sorted : Bytes → List Bytes → List Bytes
insert_sorted k [] = k ∷ []
insert_sorted k (j ∷ js) = if bytes_lt j k then j ∷ insert_sorted k js else k ∷ j ∷ js

-- `sort.Strings`
unfoldable pub sort_strings : List Bytes → List Bytes
unfolding insert_sorted
sort_strings [] = []
sort_strings (k ∷ ks) = insert_sorted k (sort_strings ks)

pub length-insert_sorted :
    (k : Bytes) (ks : List Bytes) → length (insert_sorted k ks) ≡ length ks + 1
unfolding insert_sorted
length-insert_sorted k [] = omega arith
length-insert_sorted k (j ∷ js) = ground (arith, length-insert_sorted k js)

pub length-sort_strings : (ks : List Bytes) → length (sort_strings ks) ≡ length ks
unfolding sort_strings
length-sort_strings [] = refl
length-sort_strings (k ∷ ks) =
    omega (arith, length-insert_sorted k (sort_strings ks), length-sort_strings ks)

pub All-insert_sorted {κ} :
    (P : Bytes → Type κ) (k : Bytes) (ks : List Bytes) → P k → All P ks → All P (insert_sorted k ks)
unfolding insert_sorted
All-insert_sorted P k [] h all = (h, tt)
All-insert_sorted P k (j ∷ js) h all = elim (Bool-cases (bytes_lt j k)) [
  | inl before ↦ rw before (all.0, All-insert_sorted P k js h all.1)
  | inr after ↦ rw after (h, all)
]

pub All-sort_strings {κ} :
    (P : Bytes → Type κ) (ks : List Bytes) → All P ks → All P (sort_strings ks)
unfolding sort_strings
All-sort_strings P [] all = tt
All-sort_strings P (k ∷ ks) all =
    All-insert_sorted P k (sort_strings ks) all.0 (All-sort_strings P ks all.1)

-- `for _, s := range ss { if s == k { return true } }`
unfoldable pub has_string : Bytes → List Bytes → Bool
has_string k [] = false
has_string k (j ∷ js) = if bytes_eq j k then true else has_string k js

has_string_weaken :
    (js : List Bytes) (k : Bytes) (ks : List Bytes)
    → All (λ j. has_string j ks ≡ true) js
    → All (λ j. has_string j (k ∷ ks) ≡ true) js
unfolding has_string
has_string_weaken [] k ks h = tt
has_string_weaken (j ∷ js) k ks h = (ground arith, has_string_weaken js k ks h.1)

pub All-has_string : (ks : List Bytes) → All (λ j. has_string j ks ≡ true) ks
unfolding has_string
All-has_string [] = tt
All-has_string (k ∷ ks) = (rw (bytes_eq_refl k) refl, has_string_weaken ks k ks (All-has_string ks))

-- A property of every entry.
module _ {ℓ κ} {V : Type ℓ} where
  abbrev pub Entries : (Bytes → V → Type κ) → GoMap V → Type κ
  Entries P [] = Unit {κ}
  Entries P ((k, v) ∷ m) = P k v × Entries P m

  pub Entries-insert :
      (P : Bytes → V → Type κ) (k : Bytes) (v : V) (m : GoMap V)
      → P k v
      → Entries P m
      → Entries P (insert k v m)
  unfolding insert
  Entries-insert P k v [] new all = (new, tt)
  Entries-insert P k v ((j, w) ∷ m) new all = elim (Bool-cases (bytes_eq j k)) [
    | inl same ↦ rw same (rw (eq_of_bytes_eq j k same) new, all.1)
    | inr other ↦ rw other (all.0, Entries-insert P k v m new all.1)
  ]

  pub Entries-lookup :
      (P : Bytes → V → Type κ) (k : Bytes) (v : V) (m : GoMap V)
      → Entries P m
      → lookup k m ≡ some v
      → P k v
  unfolding lookup
  Entries-lookup P k v [] all e = absurd (cc e)
  Entries-lookup P k v ((j, w) ∷ m) all e = elim (Bool-cases (bytes_eq j k)) [
    | inl same ↦
        let there : P j w = all.0 in
        let value : w ≡ v = cc (rw same at e) in rw (eq_of_bytes_eq j k same, value) at there
    | inr other ↦ Entries-lookup P k v m all.1 (rw other at e)
  ]

  pub Entries-map :
      {P Q : Bytes → V → Type κ} (m : GoMap V)
      → ((k : Bytes) (v : V) → P k v → Q k v)
      → Entries P m
      → Entries Q m
  Entries-map [] f all = tt
  Entries-map ((k, v) ∷ m) f all = (f k v all.0, Entries-map m f all.1)
