-- ===== src/Tree.antt =====
-- libs/tree: the ordered tree behind the mempool.
--
-- `Key` is interface.go's NodeKey and its comparison, `Llrb` the left-leaning red-black tree of
-- llrb.go. A node owns its children, so a pointer is a tree and nil is the empty tree; a method
-- returns the new tree. A nil dereference and the explicit panics are `panic`.
-- The mutex makes every exported method atomic and is not modelled. The B-tree of btree.go calls a
-- package that is not in the repository.
pub mod Key
pub mod Llrb
