-- ===== src/Prelude/Lists.antt =====
-- Lists measured and indexed by native numbers, under the library's names; C arrays are such lists.
use Prim.Native.Nat.{ℕ, zero, suc, ◌+◌, ◌-◌, ◌≤◌, min}
use mathlib.Core.Path.{◌≡◌, refl, ap}
use mathlib.Core.List.{List, [], ◌∷◌, ◌++◌}
use mathlib.Core.Option.{Option, none, some}
use native.Mathlib.Omega.{arith}

module _ {ℓ} {A : Type ℓ} where
  abbrev pub length : List A → ℕ
  length [] = 0
  length (x ∷ xs) = suc (length xs)

  abbrev pub get_elem? : List A → ℕ → Option A
  get_elem? [] i = none
  get_elem? (x ∷ xs) zero = some x
  get_elem? (x ∷ xs) (suc i) = get_elem? xs i

  -- A write out of bounds changes nothing.
  abbrev pub set : List A → ℕ → A → List A
  set [] i v = []
  set (x ∷ xs) zero v = v ∷ xs
  set (x ∷ xs) (suc i) v = x ∷ set xs i v

  abbrev pub take : ℕ → List A → List A
  take zero xs = []
  take (suc n) [] = []
  take (suc n) (x ∷ xs) = x ∷ take n xs

  abbrev pub drop : ℕ → List A → List A
  drop zero xs = xs
  drop (suc n) [] = []
  drop (suc n) (x ∷ xs) = drop n xs

  abbrev pub replicate : ℕ → A → List A
  replicate zero a = []
  replicate (suc n) a = a ∷ replicate n a

  -- Writes `bs` over the elements from index `i` on; what would lie past the end is dropped.
  abbrev pub overwrite : List A → ℕ → List A → List A
  overwrite [] i bs = []
  overwrite (x ∷ xs) (suc i) bs = x ∷ overwrite xs i bs
  overwrite (x ∷ xs) zero [] = x ∷ xs
  overwrite (x ∷ xs) zero (b ∷ bs) = b ∷ overwrite xs zero bs

module _ {ℓ} {A : Type ℓ} where
  pub length-append : (xs ys : List A) → length (xs ++ ys) ≡ length xs + length ys
  length-append [] ys = omega arith
  length-append (x ∷ xs) ys = omega (arith, length-append xs ys)

  pub length-take : (n : ℕ) (xs : List A) → length (take n xs) ≡ min n (length xs)
  length-take zero xs = omega arith
  length-take (suc n) [] = omega arith
  length-take (suc n) (x ∷ xs) = omega (arith, length-take n xs)

  pub length-drop : (n : ℕ) (xs : List A) → length (drop n xs) ≡ length xs - n
  length-drop zero xs = omega arith
  length-drop (suc n) [] = omega arith
  length-drop (suc n) (x ∷ xs) = omega (arith, length-drop n xs)

  pub length-replicate : (n : ℕ) (a : A) → length (replicate n a) ≡ n
  length-replicate zero a = refl
  length-replicate (suc n) a = ap suc (length-replicate n a)

  pub length-set : (xs : List A) (i : ℕ) (v : A) → length (set xs i v) ≡ length xs
  length-set [] i v = refl
  length-set (x ∷ xs) zero v = refl
  length-set (x ∷ xs) (suc i) v = ap suc (length-set xs i v)

  pub length-overwrite :
      (xs : List A) (i : ℕ) (bs : List A) → length (overwrite xs i bs) ≡ length xs
  length-overwrite [] i bs = refl
  length-overwrite (x ∷ xs) (suc i) bs = ap suc (length-overwrite xs i bs)
  length-overwrite (x ∷ xs) zero [] = refl
  length-overwrite (x ∷ xs) zero (b ∷ bs) = ap suc (length-overwrite xs zero bs)

  -- The first `n` of a list, then the first `m` of the rest.
  pub take-add : (n m k : ℕ) (xs : List A) → n + m ≡ k → take n xs ++ take m (drop n xs) ≡ take k xs
  take-add zero m k xs e = ap (λ i. take i xs) (omega arith)
  take-add (suc n) m zero xs e = absurd (omega arith)
  take-add (suc n) zero (suc k) [] e = refl
  take-add (suc n) (suc m) (suc k) [] e = refl
  take-add (suc n) m (suc k) (x ∷ xs) e = ap (λ l. x ∷ l) (take-add n m k xs (omega arith))

  pub drop-add : (n m k : ℕ) (xs : List A) → n + m ≡ k → drop m (drop n xs) ≡ drop k xs
  drop-add zero m k xs e = ap (λ i. drop i xs) (omega arith)
  drop-add (suc n) m zero xs e = absurd (omega arith)
  drop-add (suc n) zero (suc k) [] e = refl
  drop-add (suc n) (suc m) (suc k) [] e = refl
  drop-add (suc n) m (suc k) (x ∷ xs) e = drop-add n m k xs (omega arith)

  pub take-take : (n m : ℕ) (xs : List A) → n ≤ m → take n (take m xs) ≡ take n xs
  take-take zero m xs h = refl
  take-take (suc n) zero xs h = absurd (omega arith)
  take-take (suc n) (suc m) [] h = refl
  take-take (suc n) (suc m) (x ∷ xs) h = ap (λ l. x ∷ l) (take-take n m xs (omega arith))

  take-zero : (k : ℕ) (xs : List A) → k ≡ 0 → take k xs ≡ []
  take-zero zero xs e = refl
  take-zero (suc k) xs e = absurd (omega arith)

  -- The first elements of an array up to the end of a write at index `n`.
  pub take-overwrite :
      (n k : ℕ) (xs bs : List A)
      → n + length bs ≡ k
      → k ≤ length xs
      → take k (overwrite xs n bs) ≡ take n xs ++ bs
  take-overwrite zero k [] [] e h = take-zero k [] (omega arith)
  take-overwrite (suc n) k [] [] e h = absurd (omega arith)
  take-overwrite n k [] (b ∷ bs) e h = absurd (omega arith)
  take-overwrite zero k (x ∷ xs) [] e h = take-zero k (x ∷ xs) (omega arith)
  take-overwrite zero zero (x ∷ xs) (b ∷ bs) e h = absurd (omega arith)
  take-overwrite zero (suc k) (x ∷ xs) (b ∷ bs) e h =
      ap (λ l. b ∷ l) (take-overwrite zero k xs bs (omega arith) (omega arith))
  take-overwrite (suc n) zero (x ∷ xs) bs e h = absurd (omega arith)
  take-overwrite (suc n) (suc k) (x ∷ xs) bs e h =
      ap (λ l. x ∷ l) (take-overwrite n k xs bs (omega arith) (omega arith))

  -- A write at or after index `s`, seen from `s` on.
  pub drop-overwrite :
      (s n k : ℕ) (xs bs : List A)
      → s + n ≡ k
      → drop s (overwrite xs k bs) ≡ overwrite (drop s xs) n bs
  drop-overwrite zero n k xs bs e = ap (λ i. overwrite xs i bs) (omega arith)
  drop-overwrite (suc s) n k [] bs e = refl
  drop-overwrite (suc s) n zero (x ∷ xs) bs e = absurd (omega arith)
  drop-overwrite (suc s) n (suc k) (x ∷ xs) bs e = drop-overwrite s n k xs bs (omega arith)

  pub take-whole : (n : ℕ) (xs : List A) → length xs ≤ n → take n xs ≡ xs
  take-whole zero [] h = refl
  take-whole zero (x ∷ xs) h = absurd (omega (arith, h))
  take-whole (suc n) [] h = refl
  take-whole (suc n) (x ∷ xs) h = ap (λ l. x ∷ l) (take-whole n xs (omega (arith, h)))

  pub drop-whole : (n : ℕ) (xs : List A) → length xs ≤ n → drop n xs ≡ []
  drop-whole zero [] h = refl
  drop-whole zero (x ∷ xs) h = absurd (omega (arith, h))
  drop-whole (suc n) [] h = refl
  drop-whole (suc n) (x ∷ xs) h = drop-whole n xs (omega (arith, h))

  pub take-drop : (n : ℕ) (xs : List A) → take n xs ++ drop n xs ≡ xs
  take-drop zero xs = refl
  take-drop (suc n) [] = refl
  take-drop (suc n) (x ∷ xs) = ap (λ l. x ∷ l) (take-drop n xs)

  pub length-zero : (xs : List A) → length xs ≡ 0 → xs ≡ []
  length-zero [] h = refl
  length-zero (x ∷ xs) h = absurd (omega (arith, h))
