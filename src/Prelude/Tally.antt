-- ===== src/Prelude/Tally.antt =====
-- Weighted sums over a list, and what the update of one element does to them.
use ukgoll_github_io.Prelude.{
  ℕ, zero, suc, ◌+◌, ◌≤◌, ◌≡◌, refl, some, List, [], ◌∷◌, ◌++◌, map, get_elem?, set, arith, subst,
}

module _ {A : Type 0} where
  abbrev pub tally : (A → ℕ) → List A → ℕ
  tally m [] = 0
  tally m (w ∷ ws) = m w + tally m ws

  pub tally-set :
      (m : A → ℕ) (ws : List A) (i : ℕ) {w : A} (w' : A)
      → get_elem? ws i ≡ some w
      → tally m (set ws i w') + m w ≡ tally m ws + m w'
  tally-set m [] i w' e = cc
  tally-set m (v ∷ ws) zero w' e = ground arith
  tally-set m (v ∷ ws) (suc i) w' e = omega (arith, tally-set m ws i w' e)

  -- An element weighs no more than the whole.
  pub le-tally :
      (m : A → ℕ) (ws : List A) (i : ℕ) {w : A} → get_elem? ws i ≡ some w → m w ≤ tally m ws
  le-tally m [] i e = cc
  le-tally m (v ∷ ws) zero e = ground arith
  le-tally m (v ∷ ws) (suc i) e = omega (arith, le-tally m ws i e)

  -- What stands in an updated list is the new element or stood there before.
  pub get_elem?-set :
      (P : ℕ → A → Type 0) (ws : List A) (i j : ℕ) {v : A} (w : A)
      → get_elem? (set ws i w) j ≡ some v
      → ((j : ℕ) → P j w)
      → (get_elem? ws j ≡ some v → P j v)
      → P j v
  get_elem?-set P [] i j w e new old = old e
  get_elem?-set P (u ∷ ws) zero zero w e new old = ground (arith, new 0)
  get_elem?-set P (u ∷ ws) zero (suc j) w e new old = old e
  get_elem?-set P (u ∷ ws) (suc i) zero w e new old = old e
  get_elem?-set P (u ∷ ws) (suc i) (suc j) w e new old =
      get_elem?-set (λ n. P (suc n)) ws i j w e (λ n. new (suc n)) old

  -- What holds of every element, and of the new one, holds of every element of an updated list.
  pub all-set :
      (P Q : A → Type 0) (ws : List A) (i : ℕ) (w' : A)
      → ((j : ℕ) (w : A) → get_elem? ws j ≡ some w → P w)
      → ((w : A) → P w → Q w)
      → Q w'
      → (j : ℕ) (w : A) → get_elem? (set ws i w') j ≡ some w
      → Q w
  all-set P Q ws i w' all keep new j w e =
      get_elem?-set (λ _. Q) ws i j w' e (λ _. new) (λ old. keep w (all j w old))

  pub tally-map_eq :
      (m : A → ℕ) (g : A → A)
      → ((w : A) → m (g w) ≡ m w)
      → (ws : List A) → tally m (map g ws) ≡ tally m ws
  tally-map_eq m g h [] = refl
  tally-map_eq m g h (w ∷ ws) = omega (arith, h w, tally-map_eq m g h ws)

  pub tally-map_zero :
      (m : A → ℕ) (g : A → A) → ((w : A) → m (g w) ≡ 0) → (ws : List A) → tally m (map g ws) ≡ 0
  tally-map_zero m g h [] = refl
  tally-map_zero m g h (w ∷ ws) = omega (arith, h w, tally-map_zero m g h ws)

  pub all-map :
      (P Q : A → Type 0) (g : A → A) (ws : List A)
      → ((j : ℕ) (w : A) → get_elem? ws j ≡ some w → P w)
      → ((w : A) → P w → Q (g w))
      → (j : ℕ) (w : A) → get_elem? (map g ws) j ≡ some w
      → Q w
  all-map P Q g [] all keep j w e = cc
  all-map P Q g (v ∷ ws) all keep zero w e =
      let q : g v ≡ w = cc in subst Q q (keep v (all 0 v refl))
  all-map P Q g (v ∷ ws) all keep (suc j) w e =
      all-map P Q g ws (λ k u f. all (suc k) u f) keep j w e

  pub tally-append : (m : A → ℕ) (xs ys : List A) → tally m (xs ++ ys) ≡ tally m xs + tally m ys
  tally-append m [] ys = omega arith
  tally-append m (x ∷ xs) ys = omega (arith, tally-append m xs ys)
