-- ===== src/Prelude/CString.antt =====
-- C strings: the bytes of an array before its first 0. Used by its own name.
use mathlib.Core.Option
use mathlib.Core.Path.{◌≡◌, refl, ap, ◌∙◌}
use mathlib.Core.Logic.{◌≢◌, inl, inr}
use mathlib.Core.Bool.{Bool, true, false}
use mathlib.Core.Option.{Option, none, some}
use mathlib.Core.List.{List, [], ◌∷◌, ◌++◌}
use native.Mathlib.Omega.{arith}
use Prim.Native.Nat.{ℕ, zero, suc, ◌+◌, ◌-◌, ◌≤◌, ◌<◌}
use ukgoll_github_io.Prelude.Tests.{◌==◌, if◌then◌else◌, Bool-cases}
use ukgoll_github_io.Prelude.Lists.{
  length, take, drop, replicate, overwrite, length-replicate, length-append, length-overwrite,
}

abbrev pub before_zero : List ℕ → List ℕ
before_zero [] = []
before_zero (b ∷ bs) = if b == 0 then [] else b ∷ before_zero bs

abbrev pub has_zero : List ℕ → Bool
has_zero [] = false
has_zero (b ∷ bs) = if b == 0 then true else has_zero bs

-- `none` where there is no 0 in the array.
unfoldable pub until_zero : List ℕ → Option (List ℕ)
until_zero [] = none
until_zero (c ∷ cs) =
    let rest = Option.map (λ s. c ∷ s) (until_zero cs) in if c == 0 then some [] else rest

-- The string has no 0.
abbrev pub Plain : List ℕ → Type 0
Plain [] = Unit
Plain (c ∷ cs) = (c ≢ 0) × Plain cs

pub until_zero-has_zero : (bs : List ℕ) → has_zero bs ≡ true → until_zero bs ≡ some (before_zero bs)
unfolding until_zero
until_zero-has_zero [] h = cc
until_zero-has_zero (b ∷ bs) h = elim (Bool-cases (b == 0)) [
  | inl e ↦ rw e refl
  | inr e ↦ rw (e, until_zero-has_zero bs (rw e at h)) refl
]

pub until_zero-Plain : (s : List ℕ) → Plain s → until_zero s ≡ none
unfolding until_zero
until_zero-Plain [] v = refl
until_zero-Plain (c ∷ cs) (h, v) =
    let e : (c == 0) ≡ false = ground (arith, h) in rw (e, until_zero-Plain cs v) refl

pub until_zero-append : (s t : List ℕ) → Plain s → until_zero (s ++ (0 ∷ t)) ≡ some s
unfolding until_zero
until_zero-append [] t v = refl
until_zero-append (c ∷ cs) t (h, v) =
    let e : (c == 0) ≡ false = ground (arith, h) in rw (e, until_zero-append cs t v) refl

-- An array whose last byte is 0, written over from its front and not to its end: the bytes, then what
-- was there behind them.
pub overwrite-front :
    (bs xs : List ℕ) → length bs ≤ length xs → overwrite xs 0 bs ≡ bs ++ drop (length bs) xs
overwrite-front [] [] h = refl
overwrite-front [] (x ∷ xs) h = refl
overwrite-front (b ∷ bs) [] h = absurd (omega (arith, h))
overwrite-front (b ∷ bs) (x ∷ xs) h = ap (λ l. b ∷ l) (overwrite-front bs xs (omega (arith, h)))

pub has_zero-append : (xs : List ℕ) → has_zero (xs ++ (0 ∷ [])) ≡ true
has_zero-append [] = refl
has_zero-append (x ∷ xs) = elim (Bool-cases (x == 0)) [
  | inl e ↦ rw e refl
  | inr e ↦ rw e (has_zero-append xs)
]

pub before_zero-append : (s t : List ℕ) → Plain s → before_zero (s ++ t) ≡ s ++ before_zero t
before_zero-append [] t v = refl
before_zero-append (c ∷ cs) t (h, v) =
    let e : (c == 0) ≡ false = ground (arith, h) in rw (e, before_zero-append cs t v) refl

pub until_zero-behind :
    (s t u : List ℕ) → Plain s → until_zero t ≡ some u → until_zero (s ++ t) ≡ some (s ++ u)
unfolding until_zero
until_zero-behind [] t u v e = e
until_zero-behind (c ∷ cs) t u (h, v) e =
    let f : (c == 0) ≡ false = ground (arith, h) in rw (f, until_zero-behind cs t u v e) refl

drop-replicate : (n k : ℕ) → n < k → until_zero (drop n (replicate k 0)) ≡ some []
unfolding until_zero
drop-replicate zero zero h = absurd (omega (arith, h))
drop-replicate zero (suc k) h = refl
drop-replicate (suc n) zero h = absurd (omega (arith, h))
drop-replicate (suc n) (suc k) h = drop-replicate n k (omega (arith, h))

until_zero-drop :
    (n : ℕ) (s : List ℕ) (k : ℕ)
    → Plain s
    → n < length s + k
    → 1 ≤ k
    → until_zero (drop n (s ++ replicate k 0)) ≡ some (drop n s)
until_zero-drop zero s zero v h p = absurd (omega (arith, p))
until_zero-drop zero s (suc k) v h p = until_zero-append s (replicate k 0) v
until_zero-drop (suc n) [] k v h p = drop-replicate (suc n) k (omega (arith, h))
until_zero-drop (suc n) (c ∷ cs) k (_, v) h p = until_zero-drop n cs k v (omega (arith, h)) p

drop-zeros : (n k : ℕ) → drop {A = ℕ} n (replicate k 0) ≡ replicate (k - n) 0
drop-zeros zero k = ap (λ j. replicate {A = ℕ} j 0) (omega arith)
drop-zeros (suc n) zero = let e : 0 ≡ 0 - suc n = omega arith in ap (λ j. replicate {A = ℕ} j 0) e
drop-zeros (suc n) (suc k) = drop-zeros n k ∙ ap (λ j. replicate {A = ℕ} j 0) (omega arith)

-- An array of zeros, after a string is stored in its front.
pub overwrite-zeros :
    (size : ℕ) (a : List ℕ)
    → length a ≤ size
    → overwrite (replicate size 0) 0 a ≡ a ++ replicate (size - length a) 0
overwrite-zeros size a h =
    overwrite-front a (replicate size 0) (omega (arith, length-replicate {A = ℕ} size 0, h))
    ∙ ap (λ l. a ++ l) (drop-zeros (length a) size)

pub first_string :
    (size : ℕ) (a : List ℕ)
    → Plain a
    → length a < size
    → until_zero (overwrite (replicate size 0) 0 a) ≡ some a
first_string size a v h =
    ap until_zero (overwrite-zeros size a (omega (arith, h)))
    ∙ until_zero-drop 0 a (size - length a) v (omega (arith, h)) (omega (arith, h))

-- Two strings stored one after the other: behind the second stands the tail of the first.
pub second_string :
    (size : ℕ) (a b : List ℕ)
    → Plain a
    → Plain b
    → length a < size
    → length b < size
    → until_zero (overwrite (overwrite (replicate size 0) 0 a) 0 b) ≡ some (b ++ drop (length b) a)
second_string size a b v w h k =
    let zeros = replicate (size - length a) 0 in
    let room : length b ≤ length (a ++ zeros) =
      omega (arith, length-append a zeros, length-replicate {A = ℕ} (size - length a) 0, h, k) in
    rw (overwrite-zeros size a (omega (arith, h)), overwrite-front b (a ++ zeros) room)
      (until_zero-behind b _ (drop (length b) a) w
        (until_zero-drop (length b) a (size - length a) v (omega (arith, h, k)) (omega (arith, h))))

-- The last byte of the array stays where it is.
pub overwrite-append :
    (xs t bs : List ℕ) → length bs ≤ length xs → overwrite (xs ++ t) 0 bs ≡ overwrite xs 0 bs ++ t
overwrite-append [] [] [] h = refl
overwrite-append [] (y ∷ t) [] h = refl
overwrite-append [] t (b ∷ bs) h = absurd (omega (arith, h))
overwrite-append (x ∷ xs) t [] h = refl
overwrite-append (x ∷ xs) t (b ∷ bs) h =
    ap (λ l. b ∷ l) (overwrite-append xs t bs (omega (arith, h)))

-- The array ends with a 0, behind `n` bytes.
abbrev pub Ended : ℕ → List ℕ → Type 0
Ended n buf = (xs : List ℕ) × (buf ≡ xs ++ (0 ∷ [])) × (length xs ≡ n)

pub overwrite-Ended :
    (n : ℕ) (buf bs : List ℕ) → Ended n buf → length bs ≤ n → Ended n (overwrite buf 0 bs)
overwrite-Ended n buf bs (xs, e, l) h = (
  overwrite xs 0 bs,
  rw e (overwrite-append xs (0 ∷ []) bs (omega (arith, l, h))),
  length-overwrite xs 0 bs ∙ l,
)

pub until_zero-Ended :
    (n : ℕ) (buf : List ℕ) → Ended n buf → until_zero buf ≡ some (before_zero buf)
until_zero-Ended n buf (xs, e, l) = rw e (until_zero-has_zero (xs ++ (0 ∷ [])) (has_zero-append xs))

zeros-end : (n : ℕ) → replicate {A = ℕ} (suc n) 0 ≡ replicate n 0 ++ (0 ∷ [])
zeros-end zero = refl
zeros-end (suc n) = ap (λ l. 0 ∷ l) (zeros-end n)

pub zeros-Ended : (n : ℕ) → Ended n (replicate (suc n) 0)
zeros-Ended n = (replicate n 0, zeros-end n, length-replicate {A = ℕ} n 0)

-- A 0 stored behind the first `n` bytes ends the string there, or before.
pub until_zero-overwrite :
    (n : ℕ) (xs : List ℕ)
    → n < length xs
    → until_zero (overwrite xs n (0 ∷ [])) ≡ some (before_zero (take n xs))
unfolding until_zero
until_zero-overwrite n [] h = absurd (omega (arith, h))
until_zero-overwrite zero (x ∷ xs) h = refl
until_zero-overwrite (suc n) (x ∷ xs) h = elim (Bool-cases (x == 0)) [
  | inl e ↦ rw e refl
  | inr e ↦ rw (e, until_zero-overwrite n xs (omega (arith, h))) refl
]

pub take-overwrite_front :
    (n : ℕ) (xs bs : List ℕ)
    → n ≤ length bs
    → length bs ≤ length xs
    → take n (overwrite xs 0 bs) ≡ take n bs
take-overwrite_front zero xs bs h k = refl
take-overwrite_front (suc n) xs [] h k = absurd (omega (arith, h))
take-overwrite_front (suc n) [] (b ∷ bs) h k = absurd (omega (arith, k))
take-overwrite_front (suc n) (x ∷ xs) (b ∷ bs) h k =
    ap (λ l. b ∷ l) (take-overwrite_front n xs bs (omega (arith, h)) (omega (arith, k)))
