-- ===== src/Dag/Unseen.antt =====
-- How many hashes a walk has not visited, by which the walks of dag/ are seen to end.
use scionic_merkle_tree_go.Common.{
  ℕ, suc, ◌+◌, ◌≤◌, ◌<◌, ◌≡◌, refl, ap, true, false, some, List, [], ◌∷◌, Bytes, length,
  if◌then◌else◌, bytes_eq, GoMap, keys, lookup, arith, inl, inr, Bool-cases, bytes_eq_refl,
  eq_of_bytes_eq, bytes_eq_iff, has_string,
}

-- How many of the strings are not visited.
unfoldable pub unseen : List Bytes → List Bytes → ℕ
unfolding has_string
unseen [] v = 0
unseen (k ∷ ks) v = (if has_string k v then 0 else 1) + unseen ks v

pub unseen_less :
    (ks v w : List Bytes)
    → ((x : Bytes) → has_string x v ≡ true → has_string x w ≡ true)
    → unseen ks w ≤ unseen ks v
unfolding unseen
unseen_less [] v w h = omega arith
unseen_less (k ∷ ks) v w h = ground (arith, h k, unseen_less ks v w h)

pub unseen-visit :
    (k : Bytes) (ks v : List Bytes)
    → has_string k ks ≡ true
    → has_string k v ≡ false
    → unseen ks (k ∷ v) < unseen ks v
unfolding unseen
unseen-visit k [] v there new = absurd (cc there)
unseen-visit k (j ∷ ks) v there new = elim (Bool-cases (bytes_eq j k)) [
  | inl equal ↦
      let same : j ≡ k = eq_of_bytes_eq j k equal in
      rw (same, new, bytes_eq_refl k) (omega (arith, unseen_less ks v (k ∷ v) grows))
  | inr differ ↦
      let less = unseen-visit k ks v (rw differ at there) new in
      let swapped : bytes_eq k j ≡ false = ground (arith, bytes_eq_iff k j, bytes_eq_iff j k) in
      rw swapped (omega (arith, less))
]
  where
    grows : (x : Bytes) → has_string x v ≡ true → has_string x (k ∷ v) ≡ true
    grows x h = ground arith

pub has_string-keys :
    {V : Type 0} (k : Bytes) (m : GoMap V) (v : V)
    → lookup k m ≡ some v
    → has_string k (keys m) ≡ true
unfolding lookup has_string
has_string-keys k [] v h = absurd (cc h)
has_string-keys k ((j, w) ∷ m) v h = elim (Bool-cases (bytes_eq j k)) [
  | inl equal ↦ rw equal refl
  | inr differ ↦ rw differ (has_string-keys k m v (rw differ at h))
]

pub unseen-le : (ks v : List Bytes) → unseen ks v ≤ length ks
unfolding unseen
unseen-le [] v = omega arith
unseen-le (k ∷ ks) v = ground (arith, unseen-le ks v)

pub length-keys {ℓ} : {V : Type ℓ} (m : GoMap V) → length (keys m) ≡ length m
length-keys [] = refl
length-keys ((k, v) ∷ m) = ap suc (length-keys m)
