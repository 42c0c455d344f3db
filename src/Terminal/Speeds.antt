-- ===== src/Terminal/Speeds.antt =====
-- codes/apue/signal/get_terminal_size.c: the table of speeds.
use ukgoll_github_io.Prelude.{
  ℕ, ◌≡◌, ◌≢◌, refl, sym, ap, ◌==◌, ==_iff, none, some, List, [], ◌∷◌, ◌⊎◌, inl, inr, Bool-cases,
}
use ukgoll_github_io.Terminal.Program.{Speed, baud, Defined, cases, switch, speed_to_baud}

abbrev pub Among : Speed → List Speed → Type 0
Among b [] = ⊥
Among b (a ∷ bs) = (b ≡ a) ⊎ Among b bs

module _ (code : Speed → ℕ) where
  switch-Among :
      (b : Speed) (bs : List Speed)
      → ((a c : Speed) → code a ≡ code c → a ≡ c)
      → Among b bs
      → switch code (code b) bs ≡ some (baud b)
  unfolding switch
  switch-Among b [] distinct m = absurd m
  switch-Among b (a ∷ bs) distinct m = elim (Bool-cases (code b == code a)) [
    | inl e ↦ rw e (ap (λ x. some (baud x)) (sym (distinct b a ((==_iff (code b) (code a)).0 e))))
    | inr e ↦ elim m [
      | inl q ↦ absurd (cc ((==_iff (code b) (code a)).1 (ap code q), e))
      | inr n ↦ rw e (switch-Among b bs distinct n)
    ]
  ]

  switch-none :
      (speed : ℕ) (bs : List Speed) → ((a : Speed) → speed ≢ code a) → switch code speed bs ≡ none
  unfolding switch
  switch-none speed [] h = refl
  switch-none speed (a ∷ bs) h = elim (Bool-cases (speed == code a)) [
    | inl e ↦ absurd (h a ((==_iff speed (code a)).0 e))
    | inr e ↦ rw e (switch-none speed bs h)
  ]

-- Where the system gives different constants different values: the value of a constant that the
-- system defines is taken to its rate, and never to -1 or to the rate of another.
speed_to_baud-code :
    (code : Speed → ℕ) (defined : Defined) (b : Speed)
    → ((a c : Speed) → code a ≡ code c → a ≡ c)
    → Among b (cases defined)
    → speed_to_baud code defined (code b) ≡ some (baud b)
unfolding speed_to_baud
speed_to_baud-code code defined b distinct m = switch-Among code b (cases defined) distinct m

-- A value that no constant has is taken to -1.
unknown_speed :
    (code : Speed → ℕ) (defined : Defined) (speed : ℕ)
    → ((a : Speed) → speed ≢ code a)
    → speed_to_baud code defined speed ≡ none
unfolding speed_to_baud
unknown_speed code defined speed h = switch-none code speed (cases defined) h
