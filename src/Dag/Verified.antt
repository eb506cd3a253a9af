-- ===== src/Dag/Verified.antt =====
-- dag/leaves.go: `BuildLeaf` and `VerifyLeaf` together.
use scionic_merkle_tree_go.Common.{
  ◌≡◌, ◌≢◌, refl, sym, ap, ◌∙◌, true, false, not, Option, some, none, [], Bytes, bytes_eq, ok,
  ◌>>=◌, ◌>>◌, guard, GoMap, inl, inr, Bool-cases, >>=-eq-ok, guard-eq-ok, ok-injective,
  bytes_eq_refl, eq_of_bytes_eq, ◌⊎◌,
}
use scionic_merkle_tree_go.Dag.Types.{
  DagLeaf, DagLeafBuilder, LeafData, leaf_without_type, leaf_failed_to_verify,
  content_hash_mismatch, Checked, Codec,
}
use scionic_merkle_tree_go.Dag.Sorting.{sort_map_by_keys, sort_map_by_keys_again}
use scionic_merkle_tree_go.Dag.Leaf.{
  build_leaf, verify_leaf, leaf_data_of, leaf_data, merkle_root_of, sum_leaf, verify_content,
  leaf_of, hash_of_bytes,
}
use scionic_merkle_tree_go.Merkle.Tree.{MerkleTree}

pub verify_content_built :
    (codec : Codec) (content : Option Bytes)
    → verify_content codec content (hash_of_bytes codec content) ≡ ok tt
unfolding verify_content
verify_content_built codec none = refl
verify_content_built codec (some bytes) = rw (bytes_eq_refl (codec.sha256 bytes)) refl

-- A leaf that was built, and what it was built from.
pub record BuiltLeaf (codec : Codec) (b : DagLeafBuilder) (more : Option (GoMap Bytes))
    (leaf : DagLeaf) : Type 0 where
  pub rooted : Bytes × Option MerkleTree
  pub cid : Bytes
  pub made : merkle_root_of codec.sha256 b.links ≡ ok rooted
  pub summed : sum_leaf codec (leaf_data codec b rooted.0 (some (sort_map_by_keys more))) ≡ ok cid
  pub same : leaf ≡ leaf_of codec b more rooted cid

pub build_leaf-BuiltLeaf :
    (codec : Codec) (b : DagLeafBuilder) (more : Option (GoMap Bytes)) (leaf : DagLeaf)
    → build_leaf codec b more ≡ ok leaf
    → BuiltLeaf codec b more leaf
unfolding build_leaf
build_leaf-BuiltLeaf codec b more leaf e =
    let last : Bytes × Option MerkleTree → Bytes → Checked DagLeaf =
      λ rooted c. ok (leaf_of codec b more rooted c) in
    let sum : Bytes × Option MerkleTree → Checked Bytes =
      λ rooted. sum_leaf codec (leaf_data codec b rooted.0 (some (sort_map_by_keys more))) in
    let (u, typed, e1) =
      >>=-eq-ok (guard (not (bytes_eq b.leaf_type [])) leaf_without_type)
        (λ _. merkle_root_of codec.sha256 b.links >>= λ rooted. sum rooted >>= last rooted) e in
    let (rooted, made, e2) =
      >>=-eq-ok (merkle_root_of codec.sha256 b.links) (λ rooted. sum rooted >>= last rooted) e1 in
    let (c, summed, e3) = >>=-eq-ok (sum rooted) (last rooted) e2 in
    record { rooted = rooted; cid = c; made = made; summed = summed; same = sym (ok-injective e3) }

leaf_data_of-leaf_of :
    (codec : Codec) (b : DagLeafBuilder) (more : Option (GoMap Bytes))
    (rooted : Bytes × Option MerkleTree) (c : Bytes)
    → leaf_data_of (leaf_of codec b more rooted c)
      ≡ leaf_data codec b rooted.0 (some (sort_map_by_keys more))
unfolding leaf_data_of leaf_of leaf_data
leaf_data_of-leaf_of codec b more (root, tree) c =
    rw (sort_map_by_keys_again more, sort_map_by_keys_again more) refl

-- Every leaf that `BuildLeaf` returns passes `VerifyLeaf`, if decoding a CID's text gives the CID.
pub build_leaf-verify_leaf :
    (codec : Codec) (b : DagLeafBuilder) (additional_data : Option (GoMap Bytes)) (leaf : DagLeaf)
    → ((c : Bytes) → codec.cid_decode (codec.cid_string c) ≡ ok c)
    → build_leaf codec b additional_data ≡ ok leaf
    → verify_leaf codec leaf ≡ ok tt
unfolding verify_leaf leaf_of
build_leaf-verify_leaf codec b more leaf decode e =
    let built = build_leaf-BuiltLeaf codec b more leaf e in
    rw built.same (verified built.rooted built.cid built.summed)
  where
    verified :
        (rooted : Bytes × Option MerkleTree) (c : Bytes)
        → sum_leaf codec (leaf_data codec b rooted.0 (some (sort_map_by_keys more))) ≡ ok c
        → verify_leaf codec (leaf_of codec b more rooted c) ≡ ok tt
    verified (root, tree) c summed =
        rw (leaf_data_of-leaf_of codec b more (root, tree) c, summed, decode c, bytes_eq_refl c)
          (verify_content_built codec b.leaf_bytes)

apart : (p q : Bytes) → bytes_eq p q ≡ false → p ≢ q
apart p q different e =
    let equal : bytes_eq p q ≡ true = rw e (bytes_eq_refl q) in absurd (cc (sym different ∙ equal))

-- Two different byte strings with one value under a function.
abbrev pub Collision : (Bytes → Checked Bytes) → Type 0
Collision f = (p q : Bytes) × (p ≢ q) × (f p ≡ f q)

-- What `VerifyLeaf` has checked when it succeeds.
pub record VerifiedLeaf (codec : Codec) (leaf : DagLeaf) : Type 0 where
  pub encoded : Bytes
  pub cid : Bytes
  pub marshalled : codec.marshal_leaf (leaf_data_of leaf) ≡ ok encoded
  pub summed : codec.cid_sum encoded ≡ ok cid
  pub decoded : codec.cid_decode leaf.hash ≡ ok cid
  pub content_fits : verify_content codec leaf.content leaf.content_hash ≡ ok tt

verify_leaf-VerifiedLeaf :
    (codec : Codec) (leaf : DagLeaf) → verify_leaf codec leaf ≡ ok tt → VerifiedLeaf codec leaf
unfolding verify_leaf sum_leaf
verify_leaf-VerifiedLeaf codec leaf e =
    let rest : Bytes → Bytes → Checked (Unit {0}) = λ c current_cid.
      guard (bytes_eq c current_cid) leaf_failed_to_verify
      >> verify_content codec leaf.content leaf.content_hash in
    let (c, made, e1) =
      >>=-eq-ok (codec.marshal_leaf (leaf_data_of leaf) >>= codec.cid_sum)
        (λ c. codec.cid_decode leaf.hash >>= rest c) e in
    let (encoded, marshalled, summed) =
      >>=-eq-ok (codec.marshal_leaf (leaf_data_of leaf)) codec.cid_sum made in
    let (current, decoded, e2) = >>=-eq-ok (codec.cid_decode leaf.hash) (rest c) e1 in
    let (u, equal, fits) =
      >>=-eq-ok (guard (bytes_eq c current) leaf_failed_to_verify)
        (λ _. verify_content codec leaf.content leaf.content_hash) e2 in
    let same =
      eq_of_bytes_eq c current (guard-eq-ok (bytes_eq c current) leaf_failed_to_verify equal) in
    record {
      encoded = encoded;
      cid = c;
      marshalled = marshalled;
      summed = summed;
      decoded = rw same decoded;
      content_fits = fits;
    }

-- Two leaves with one hash that both pass `VerifyLeaf` have the same name, type, Merkle root, link
-- count, content hash and sorted additional data, or the CID's hash function has a collision. The
-- encoder is to give different bytes for different structs.
pub verify_leaf-leaf_data_of :
    (codec : Codec) (x y : DagLeaf)
    → ((d e : LeafData) (bytes : Bytes)
        → codec.marshal_leaf d ≡ ok bytes
        → codec.marshal_leaf e ≡ ok bytes
        → d ≡ e)
    → x.hash ≡ y.hash
    → verify_leaf codec x ≡ ok tt
    → verify_leaf codec y ≡ ok tt
    → (leaf_data_of x ≡ leaf_data_of y) ⊎ Collision codec.cid_sum
verify_leaf-leaf_data_of codec x y injective one vx vy =
    let hx = verify_leaf-VerifiedLeaf codec x vx in
    let hy = verify_leaf-VerifiedLeaf codec y vy in
    let same_cid : hx.cid ≡ hy.cid =
      ok-injective (sym hx.decoded ∙ ap codec.cid_decode one ∙ hy.decoded) in
    let sums : codec.cid_sum hx.encoded ≡ codec.cid_sum hy.encoded =
      hx.summed ∙ ap ok same_cid ∙ sym hy.summed in
    elim (Bool-cases (bytes_eq hx.encoded hy.encoded)) [
      | inl equal ↦ inl (
          injective (leaf_data_of x) (leaf_data_of y) hx.encoded hx.marshalled
            (hy.marshalled ∙ ap ok (sym (eq_of_bytes_eq hx.encoded hy.encoded equal))))
      | inr different ↦ inr (hx.encoded, hy.encoded, apart hx.encoded hy.encoded different, sums)
    ]

-- Two leaves that hold content, have one content hash and pass `VerifyLeaf` hold the same content,
-- or SHA-256 has a collision.
pub verify_leaf-content :
    (codec : Codec) (x y : DagLeaf) (cx cy : Bytes)
    → x.content ≡ some cx
    → y.content ≡ some cy
    → x.content_hash ≡ y.content_hash
    → verify_leaf codec x ≡ ok tt
    → verify_leaf codec y ≡ ok tt
    → (cx ≡ cy) ⊎ Collision (λ b. ok (codec.sha256 b))
unfolding verify_content
verify_leaf-content codec x y cx cy hcx hcy same vx vy =
    let fx = rw hcx at (verify_leaf-VerifiedLeaf codec x vx).content_fits in
    let fy = rw (hcy, ← same) at (verify_leaf-VerifiedLeaf codec y vy).content_fits in
    elim (Bool-cases (bytes_eq cx cy)) [
      | inl equal ↦ inl (eq_of_bytes_eq cx cy equal)
      | inr different ↦ inr (cx, cy, apart cx cy different, ap ok (fits x.content_hash cx cy fx fy))
    ]
  where
    fits :
        (h : Option Bytes) (a b : Bytes)
        → verify_content codec (some a) h ≡ ok tt
        → verify_content codec (some b) h ≡ ok tt
        → codec.sha256 a ≡ codec.sha256 b
    fits none a b p q = absurd (cc p)
    fits (some h) a b p q =
        eq_of_bytes_eq (codec.sha256 a) h (guard-eq-ok _ content_hash_mismatch p)
        ∙ sym (eq_of_bytes_eq (codec.sha256 b) h (guard-eq-ok _ content_hash_mismatch q))
