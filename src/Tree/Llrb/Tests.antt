-- ===== src/Tree/Llrb/Tests.antt =====
-- Insertions and searches at concrete keys.
use tendermintx.Common.{◌∷◌, inr, ℕ, pos, true, false, [], ◌≡◌, refl, none, some, ok, ltb}
use tendermintx.Tree.Key.{NodeKey, compare, start_key, compare-IsLinearOrder}
use tendermintx.Tree.Llrb.{
  leaf, node, Llrb, insert, insert_node, balance, blacken, get_next, next_from,
}
use tendermintx.Tree.Llrb.List.{to_list, put}
use tendermintx.Tree.Llrb.Shape.{empty, red, black}
use tendermintx.Tree.Llrb.Insert.{IsValid, insert_correct}
use tendermintx.Tree.Llrb.Next.{last_below, get_next_correct, get_next-skips_left}

abbrev key : ℕ → NodeKey
key p = record { priority = p; ts = pos 0; hash = [] }

-- Priorities 1 and 2, with sizes for data.
abbrev two : Llrb NodeKey ℕ
two = record { size = 2; root = node (node leaf (key 1) 10 false leaf) (key 2) 20 true leaf }

two-IsValid : IsValid compare two
unfolding compare
two-IsValid = record {
  shape = (1, black (red empty empty) empty);
  sorted = ((refl, tt), (tt, tt));
  sized = refl;
}

insert_correct_example :
    (t' : Llrb NodeKey ℕ) × (insert compare (key 3) 30 two ≡ ok t')
    × IsValid compare t'
    × (to_list t'.root ≡ put compare (key 3) 30 (to_list two.root))
insert_correct_example = insert_correct compare compare-IsLinearOrder (key 3) 30 two two-IsValid

-- The third insertion splits the root.
insert_splits :
    insert compare (key 3) 30 two
    ≡ ok (record {
      size = 3;
      root = node (node leaf (key 1) 10 true leaf) (key 2) 20 true (node leaf (key 3) 30 true leaf);
    })
unfolding insert insert_node compare balance blacken
insert_splits = refl

get_next_correct_example :
    get_next compare start_key (some (key 2)) (λ _. true) two
    ≡ last_below compare (key 2) (λ _. true) (to_list two.root) none
get_next_correct_example =
    get_next_correct compare compare-IsLinearOrder start_key (key 2) (λ _. true) two two-IsValid
      (λ _. refl)

get_next_finds : get_next compare start_key none (λ _. true) two ≡ some (key 2, 20)
unfolding get_next next_from compare start_key
get_next_finds = refl

-- Another entry above the others.
abbrev three : Llrb NodeKey ℕ
three = record {
  size = 3;
  root = node (node (node leaf (key 1) 10 false leaf) (key 2) 20 true leaf) (key 7) 5 true leaf;
}

-- Only the entry of priority 1 is below the starter and small enough, and the search misses it.
get_next-skips_left_example :
    get_next compare start_key (some (key 5)) (λ size. ltb size 15) three ≡ none
unfolding compare
get_next-skips_left_example =
    get_next-skips_left compare compare-IsLinearOrder start_key (key 5) (λ size. ltb size 15) 3
      ((key 7, 5, true, leaf) ∷ []) (node leaf (key 1) 10 false leaf) leaf (key 2) 20 true
      (inr refl, tt) refl refl tt

small_below :
    last_below compare (key 5) (λ size. ltb size 15) (to_list two.root) none ≡ some (key 1, 10)
unfolding last_below compare
small_below = refl
