-- ===== src/Rotation/Tests.antt =====
-- A tree of four nodes, and the theorem at it.
use ukgoll_github_io.Prelude.{◌≡◌, refl, ◌==◌, if◌then◌else◌, arith, inl, inr}
use ukgoll_github_io.Rotation.Tree.{Ptr, Node, Tree, left_rotate, right_rotate}
use ukgoll_github_io.Rotation.Inverse.{Linked, right_rotate-left_rotate}

abbrev entry : Ptr → Ptr → Ptr → Node
entry l r p = record { color = 82; key = 0; left = l; right = r; parent = p }

-- 1 is the root, 2 its left child, 3 the right child of 2, and 4 the left child of 3.
abbrev nodes : Ptr → Node
nodes a =
    if a == 1
    then entry 2 0 0
    else if a == 2
    then entry 0 3 1
    else if a == 3
    then entry 4 0 2
    else if a == 4
    then entry 0 0 3
    else entry 0 0 0

abbrev small : Tree
small = record { root = 1; count = 4; node = nodes }

small-Linked : Linked 2 3 4 1 small
small-Linked = record {
  real_x = omega arith;
  real_y = omega arith;
  xy = omega arith;
  xb = omega arith;
  yb = omega arith;
  px = omega arith;
  py = omega arith;
  pb = inl (omega arith);
  x_right = refl;
  x_parent = refl;
  y_left = refl;
  y_parent = refl;
  b_parent = inr refl;
  top = inl (omega arith);
  below = inr (inl refl);
}

-- 2 with its right child 3 is a tree of its own, and what is at NULL points nowhere.
abbrev root_nodes : Ptr → Node
root_nodes a = if a == 2 then entry 0 3 0 else if a == 3 then entry 0 0 2 else entry 0 0 0

abbrev pair : Tree
pair = record { root = 2; count = 2; node = root_nodes }

pair-Linked : Linked 2 3 0 0 pair
pair-Linked = record {
  real_x = omega arith;
  real_y = omega arith;
  xy = omega arith;
  xb = omega arith;
  yb = omega arith;
  px = omega arith;
  py = omega arith;
  pb = inr refl;
  x_right = refl;
  x_parent = refl;
  y_left = refl;
  y_parent = refl;
  b_parent = inl refl;
  top = inr refl;
  below = inl refl;
}

at_root :
    ((right_rotate 3 (left_rotate 2 pair)).root ≡ 2)
    × ((a : Ptr) → (right_rotate 3 (left_rotate 2 pair)).node a ≡ root_nodes a)
at_root = right_rotate-left_rotate 2 3 0 0 pair pair-Linked

right_rotate-left_rotate_example :
    ((right_rotate 3 (left_rotate 2 small)).root ≡ 1)
    × ((a : Ptr) → (right_rotate 3 (left_rotate 2 small)).node a ≡ nodes a)
right_rotate-left_rotate_example = right_rotate-left_rotate 2 3 4 1 small small-Linked
