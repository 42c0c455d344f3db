-- ===== src/Terminal/Tests.antt =====
-- Runs of get_terminal_size.c, and the theorem at a system.
use ukgoll_github_io.Prelude.{
  ℕ, ◌≡◌, refl, sym, ◌∙◌, List, get_elem?, ap, true, false, none, some, [], ◌∷◌, inl, inr,
}
use ukgoll_github_io.Terminal.Program.{
  Speed, b0, b50, b75, b110, b134, b150, b200, b300, b600, b1200, b1800, b2400, b4800, b9600,
  b19200, b38400, b57600, b115200, b230400, Defined, cases, speed_to_baud, main, goes_on,
  is_terminal, speeds, real_speeds, size, tcgetattr_error,
}
use ukgoll_github_io.Terminal.Speeds.{Among}

-- A system that numbers the constants in their order, from 0 on.
abbrev code : Speed → ℕ
code b0 = 0
code b50 = 1
code b75 = 2
code b110 = 3
code b134 = 4
code b150 = 5
code b200 = 6
code b300 = 7
code b600 = 8
code b1200 = 9
code b1800 = 10
code b2400 = 11
code b4800 = 12
code b9600 = 13
code b19200 = 14
code b38400 = 15
code b57600 = 16
code b115200 = 17
code b230400 = 18

abbrev no_b230400 : Defined
no_b230400 = record { has_b57600 = true; has_b115200 = true; has_b230400 = false }

undefined_speed : speed_to_baud code no_b230400 18 ≡ none
unfolding speed_to_baud
undefined_speed = refl

-- The speeds are printed also where `tcgetattr` has failed.
speeds_after_error :
    main code no_b230400 true false (90, 90) (90, 90) (some (24, 80)) true
    ≡ goes_on
        (is_terminal ∷ tcgetattr_error ∷ speeds none none ∷ real_speeds none none ∷ size 24 80 ∷ [])
unfolding main
speeds_after_error = refl

abbrev all_speeds : List Speed
all_speeds = cases (record { has_b57600 = true; has_b115200 = true; has_b230400 = true })

code_found : (b : Speed) → get_elem? all_speeds (code b) ≡ some b
code_found b0 = refl
code_found b50 = refl
code_found b75 = refl
code_found b110 = refl
code_found b134 = refl
code_found b150 = refl
code_found b200 = refl
code_found b300 = refl
code_found b600 = refl
code_found b1200 = refl
code_found b1800 = refl
code_found b2400 = refl
code_found b4800 = refl
code_found b9600 = refl
code_found b19200 = refl
code_found b38400 = refl
code_found b57600 = refl
code_found b115200 = refl
code_found b230400 = refl

codes_distinct : (a c : Speed) → code a ≡ code c → a ≡ c
codes_distinct a c e =
    let same : some a ≡ some c =
      sym (code_found a) ∙ ap (λ n. get_elem? all_speeds n) e ∙ code_found c in
    cc same

b110-Among : Among b110 (cases no_b230400)
b110-Among = inr (inr (inr (inl refl)))
