-- ===== src/Rotation/Tree.antt =====
-- struct RBTree and struct RBTreeNode in a store, and the two rotations.
use ukgoll_github_io.Prelude.{ℕ, ◌==◌, if◌then◌else◌}

-- The address of a node; 0 is NULL.
abbrev pub Ptr : Type 0
Ptr = ℕ

abbrev pub null : Ptr
null = 0

pub record Node : Type 0 where
  pub color : ℕ
  pub key : ℕ
  pub left : Ptr
  pub right : Ptr
  pub parent : Ptr

-- The tree, and what its memory holds at each address.
pub record Tree : Type 0 where
  pub root : Ptr
  pub count : ℕ
  pub node : Ptr → Node

abbrev pub set_root : Ptr → Tree → Tree
set_root v t = record t { root = v }

abbrev pub set_left : Ptr → Ptr → Tree → Tree
set_left p v t = record t {
  node = λ a. if a == p then record (t.node a) { left = v } else t.node a;
}

abbrev pub set_right : Ptr → Ptr → Tree → Tree
set_right p v t = record t {
  node = λ a. if a == p then record (t.node a) { right = v } else t.node a;
}

abbrev pub set_parent : Ptr → Ptr → Tree → Tree
set_parent p v t = record t {
  node = λ a. if a == p then record (t.node a) { parent = v } else t.node a;
}

-- The `if` over `node->parent`: what pointed to `node` points to `v`.
unfoldable pub relink : Ptr → Ptr → Tree → Tree
relink node v t =
    let p = (t.node node).parent in
    if p == null
    then set_root v t
    else if (t.node p).left == node
    then set_left p v t
    else set_right p v t

-- `leftRotate`
unfoldable pub left_rotate : Ptr → Tree → Tree
unfolding relink
left_rotate node t =
    let node_right = (t.node node).right in
    let inner = (t.node node_right).left in
    let t1 = set_right node inner t in
    let t2 = if inner == null then t1 else set_parent inner node t1 in
    let t3 = set_parent node_right (t2.node node).parent t2 in
    let t4 = relink node node_right t3 in
    if node_right == null then t else set_parent node node_right (set_left node_right node t4)

-- `rightRotate`
unfoldable pub right_rotate : Ptr → Tree → Tree
unfolding relink
right_rotate node t =
    let node_left = (t.node node).left in
    let inner = (t.node node_left).right in
    let t1 = set_left node inner t in
    let t2 = if inner == null then t1 else set_parent inner node t1 in
    let t3 = set_parent node_left (t2.node node).parent t2 in
    let t4 = relink node node_left t3 in
    if node_left == null then t else set_parent node node_left (set_right node_left node t4)
