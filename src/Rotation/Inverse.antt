-- ===== src/Rotation/Inverse.antt =====
-- What a rotation does to the tree, and that the other one undoes it.
use ukgoll_github_io.Prelude.{◌≡◌, ◌≢◌, ap, ◌∙◌, not, ◌&&◌, ◌==◌, if◌then◌else◌, arith, ◌⊎◌}
use ukgoll_github_io.Rotation.Tree.{Ptr, null, Node, Tree, relink, left_rotate, right_rotate}

-- The node `x` with its right child `y`, the inner child `b` of `y` and the parent `p` of `x`, each at
-- another address, and linked both ways. `b` may be NULL, and `p` where `x` is the root; then nothing
-- is asked of the memory there.
pub record Linked (x y b p : Ptr) (t : Tree) : Type 0 where
  pub real_x : x ≢ null
  pub real_y : y ≢ null
  pub xy : x ≢ y
  pub xb : x ≢ b
  pub yb : y ≢ b
  pub px : p ≢ x
  pub py : p ≢ y
  pub pb : (p ≢ b) ⊎ (b ≡ null)
  pub x_right : (t.node x).right ≡ y
  pub x_parent : (t.node x).parent ≡ p
  pub y_left : (t.node y).left ≡ b
  pub y_parent : (t.node y).parent ≡ x
  pub b_parent : (b ≡ null) ⊎ ((t.node b).parent ≡ y)
  pub top : (p ≢ null) ⊎ (t.root ≡ x)
  pub below :
      (p ≡ null) ⊎ (((t.node p).left ≡ x) ⊎ (((t.node p).right ≡ x) × ((t.node p).left ≢ y)))

-- The tree after `left_rotate x`, address by address.
abbrev pub rotated : Ptr → Ptr → Ptr → Ptr → Tree → Ptr → Node
rotated x y b p t a =
    let n = t.node a in
    if a == x
    then record n { right = b; parent = y }
    else if a == y
    then record n { left = x; parent = p }
    else if (a == b) && not (b == null)
    then record n { parent = x }
    else if (a == p) && not (p == null)
    then (if n.left == x then record n { left = y } else record n { right = y })
    else n

-- Where the node has a right child, the links are set both ways and the four nodes are at different
-- addresses: after `leftRotate` at the node, the child has taken its place below the parent, the node
-- is the left child of that child, the inner child is the right child of the node, and all else is as
-- it was.
left_rotate_lem :
    (x y b p : Ptr) (t : Tree)
    → Linked x y b p t
    → (a : Ptr) → (left_rotate x t).node a ≡ rotated x y b p t a
unfolding left_rotate relink
left_rotate_lem x y b p t l a = ground arith

left_rotate-root :
    (x y b p : Ptr) (t : Tree)
    → Linked x y b p t
    → (left_rotate x t).root ≡ (if p == null then y else t.root)
unfolding left_rotate relink
left_rotate-root x y b p t l = ground arith

-- The mirror image: the node `y` with its left child `x` and the inner child `b` of `x`.
record LinkedBack (x y b p : Ptr) (t : Tree) : Type 0 where
  back_left : (t.node y).left ≡ x
  back_parent : (t.node y).parent ≡ p
  back_inner : (t.node x).right ≡ b
  back_child : (t.node x).parent ≡ y

rotated-LinkedBack :
    (x y b p : Ptr) (t : Tree) → Linked x y b p t → LinkedBack x y b p (left_rotate x t)
rotated-LinkedBack x y b p t l =
    let at = left_rotate_lem x y b p t l in
    record {
      back_left = ap (λ n. n.left) (at y) ∙ ground arith;
      back_parent = ap (λ n. n.parent) (at y) ∙ ground arith;
      back_inner = ap (λ n. n.right) (at x) ∙ ground arith;
      back_child = ap (λ n. n.parent) (at x) ∙ ground arith;
    }

-- The node at the address `a` after `right_rotate y`, where it was `n` before.
abbrev unrotated : Ptr → Ptr → Ptr → Ptr → Ptr → Node → Node
unrotated x y b p a n =
    if a == y
    then record n { left = b; parent = x }
    else if a == x
    then record n { right = y; parent = p }
    else if (a == b) && not (b == null)
    then record n { parent = y }
    else if (a == p) && not (p == null)
    then (if n.left == y then record n { left = x } else record n { right = x })
    else n

-- The four addresses differ.
record Apart (x y b p : Ptr) : Type 0 where
  real_x : x ≢ null
  real_y : y ≢ null
  xy : x ≢ y
  xb : x ≢ b
  yb : y ≢ b
  px : p ≢ x
  py : p ≢ y
  pb : (p ≢ b) ⊎ (b ≡ null)

right_rotate_lem :
    (x y b p : Ptr) (u : Tree)
    → Apart x y b p
    → LinkedBack x y b p u
    → (a : Ptr) → (right_rotate y u).node a ≡ unrotated x y b p a (u.node a)
unfolding right_rotate relink
right_rotate_lem x y b p u d l a = ground arith

right_rotate-root :
    (x y b p : Ptr) (u : Tree)
    → Apart x y b p
    → LinkedBack x y b p u
    → (right_rotate y u).root ≡ (if p == null then x else u.root)
unfolding right_rotate relink
right_rotate-root x y b p u d l = ground arith

unrotated-rotated :
    (x y b p : Ptr) (t : Tree)
    → Linked x y b p t
    → (a : Ptr) → unrotated x y b p a (rotated x y b p t a) ≡ t.node a
unrotated-rotated x y b p t l a = ground arith

-- Where the node has a right child, the links are set both ways and the four nodes are at different
-- addresses, the node below a parent or at the root: `rightRotate` at the child undoes `leftRotate` at the node, at every address and at the
-- root.
pub right_rotate-left_rotate :
    (x y b p : Ptr) (t : Tree)
    → Linked x y b p t
    → ((right_rotate y (left_rotate x t)).root ≡ t.root)
      × ((a : Ptr) → (right_rotate y (left_rotate x t)).node a ≡ t.node a)
right_rotate-left_rotate x y b p t l =
    let u : Tree = left_rotate x t in
    let back = rotated-LinkedBack x y b p t l in
    let d : Apart x y b p = record {
      real_x = l.real_x;
      real_y = l.real_y;
      xy = l.xy;
      xb = l.xb;
      yb = l.yb;
      px = l.px;
      py = l.py;
      pb = l.pb;
    } in
    (
      right_rotate-root x y b p u d back ∙ roots (left_rotate-root x y b p t l),
      λ a.
          right_rotate_lem x y b p u d back a
          ∙ ap (unrotated x y b p a) (left_rotate_lem x y b p t l a)
          ∙ unrotated-rotated x y b p t l a,
    )
  where
    roots :
        (left_rotate x t).root ≡ (if p == null then y else t.root)
        → (if p == null then x else (left_rotate x t).root) ≡ t.root
    roots e = ground (arith, e, l.top)
