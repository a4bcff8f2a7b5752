-- ===== src/Merkle/Proof.antt =====
-- proof.go: inclusion proofs, made from a list of items and verified against a root hash.
use mathlib.Core.List.{reverse}
use tendermintx.Common.{
  ℕ, zero, suc, ◌-◌, ℤ, pos, negsuc, ltb_ℤ, Bytes, Bytes-discrete, Bool, true, not, ◌&&◌, Option,
  none, some, List, [], ◌∷◌, ◌++◌, map, length, ltb, leb, ◌==◌, holds, if◌then◌else◌, take, drop,
  Run, ok, panic,
}
use tendermintx.Merkle.Split.{get_split_point}
use tendermintx.Merkle.Tree.{Hash, leaf_hash, inner_hash}

pub record Proof : Type 0 where
  pub total : ℤ
  pub index : ℤ
  pub leaf_hash : Option Bytes
  pub aunts : List Bytes

pub data ProofError : Type 0 where
  negative_total negative_index invalid_leaf_hash invalid_root_hash : ProofError
  wrong_leaf_hash_size too_many_aunts wrong_aunt_size : ProofError

-- The hash of a node's sibling, on its left or on its right.
pub data Sibling : Type 0 where
  left right : Bytes → Sibling

-- A leaf's ProofNode with the nodes on its way to the root, each by its sibling; the root has none.
-- The ways of two leaves share their ends in the source, and are lists of their own here.
pub record Trail : Type 0 where
  pub hash : Bytes
  pub siblings : List Sibling

abbrev pub sibling_hash : Sibling → Bytes
sibling_hash (left h) = h
sibling_hash (right h) = h

-- `FlattenAunts`
unfoldable pub flatten_aunts : Trail → List Bytes
flatten_aunts t = map sibling_hash t.siblings

-- `leftRoot.Right = rightRoot`, as a leaf below sees it: its way is one node longer.
unfoldable pub grow : Sibling → Trail → Trail
grow s t = record t { siblings = t.siblings ++ s ∷ [] }

-- `computeHashFromAunts` on numbers, with the aunts from the root's child down.
unfoldable pub compute_hash :
    (Bytes → Bytes → Bytes) → ℕ → ℕ → Option Bytes → List Bytes → Option Bytes
compute_hash inner index total leaf [] =
    if leb total index then none else if total == 1 then leaf else none
compute_hash inner index total leaf (aunt ∷ aunts) =
    let k = get_split_point total in
    let on_left : Option Bytes = elim (compute_hash inner index k leaf aunts) [
      | none ↦ none
      | some h ↦ some (inner h aunt)
    ] in
    let on_right : Option Bytes = elim (compute_hash inner (index - k) (total - k) leaf aunts) [
      | none ↦ none
      | some h ↦ some (inner aunt h)
    ] in
    if leb total index
    then none
    else if total == 1
    then none
    else if ltb index k
    then on_left
    else on_right

module _ (hash : Hash) where
  -- `computeHashFromAunts`; a negative index or total gives nil.
  unfoldable pub compute_hash_from_aunts : ℤ → ℤ → Option Bytes → List Bytes → Option Bytes
  unfolding compute_hash
  compute_hash_from_aunts (pos index) (pos total) leaf aunts =
      compute_hash (inner_hash hash) index total leaf (reverse aunts)
  compute_hash_from_aunts (negsuc _) total leaf aunts = none
  compute_hash_from_aunts (pos _) (negsuc _) leaf aunts = none

  -- `trailsFromByteSlices`, with fuel: the trails and the hash of the root, which is nil for no
  -- items.
  unfoldable pub trails : ℕ → List Bytes → List Trail × Option Bytes
  unfolding grow
  trails f [] = ([], none)
  trails f (x ∷ []) =
      ((record { hash = leaf_hash hash x; siblings = [] }) ∷ [], some (leaf_hash hash x))
  trails zero (x ∷ y ∷ items) = ([], none)
  trails (suc f) (x ∷ y ∷ items) =
      let k = get_split_point (length (x ∷ y ∷ items)) in
      let lefts = trails f (take k (x ∷ y ∷ items)) in
      let rights = trails f (drop k (x ∷ y ∷ items)) in
      elim lefts.1 [
        | none ↦ ([], none)
        | some l ↦ elim rights.1 [
          | none ↦ ([], none)
          | some r ↦ (
            map (grow (right r)) lefts.0 ++ map (grow (left l)) rights.0,
            some (inner_hash hash l r),
          )
        ]
      ]

  -- The loop that makes a proof of each trail, from the index `i` on.
  unfoldable pub number : ℕ → ℕ → List Trail → List Proof
  unfolding flatten_aunts
  number total i [] = []
  number total i (t ∷ ts) =
      (record {
        total = pos total;
        index = pos i;
        leaf_hash = some t.hash;
        aunts = flatten_aunts t;
      })
      ∷ number total (suc i) ts

  -- `ProofsFromByteSlices`; without items it dereferences the nil root.
  unfoldable pub proofs_from_byte_slices : List Bytes → Run (Bytes × List Proof)
  unfolding trails number
  proofs_from_byte_slices items =
      let made = trails (length items) items in
      elim made.1 [ none ↦ panic | some root ↦ ok (root, number (length items) 0 made.0) ]

  -- `bytes.Equal`, for which nil is empty.
  abbrev pub same_bytes : Option Bytes → Bytes → Bool
  same_bytes none b = holds (Bytes-discrete [] b)
  same_bytes (some a) b = holds (Bytes-discrete a b)

  -- `Proof.Verify`; `none` is no error
  unfoldable pub verify : Proof → Bytes → Bytes → Option ProofError
  unfolding compute_hash_from_aunts Bytes-discrete
  verify p root leaf =
      if ltb_ℤ p.total (pos 0)
      then some negative_total
      else if ltb_ℤ p.index (pos 0)
      then some negative_index
      else if not (same_bytes p.leaf_hash (leaf_hash hash leaf))
      then some invalid_leaf_hash
      else if not (same_bytes (compute_hash_from_aunts p.index p.total p.leaf_hash p.aunts) root)
      then some invalid_root_hash
      else none

abbrev pub max_aunts : ℕ
max_aunts = 100

unfoldable pub aunts_sized : List Bytes → Bool
aunts_sized [] = true
aunts_sized (a ∷ aunts) = length a == 32 && aunts_sized aunts

abbrev pub length_of : Option Bytes → ℕ
length_of none = 0
length_of (some b) = length b

-- `Proof.ValidateBasic`
unfoldable pub validate_proof : Proof → Option ProofError
unfolding aunts_sized
validate_proof p =
    if ltb_ℤ p.total (pos 0)
    then some negative_total
    else if ltb_ℤ p.index (pos 0)
    then some negative_index
    else if not (length_of p.leaf_hash == 32)
    then some wrong_leaf_hash_size
    else if ltb max_aunts (length p.aunts)
    then some too_many_aunts
    else if not (aunts_sized p.aunts)
    then some wrong_aunt_size
    else none
