-- ===== src/Terminal/Program.antt =====
-- codes/apue/signal/get_terminal_size.c: the speed and the size of the terminal.
use ukgoll_github_io.Prelude.{
  ℕ, Bool, false, not, ◌==◌, if◌then◌else◌, Option, none, some, List, [], ◌∷◌, ◌++◌,
}

-- The constants of <termios.h> that the program names.
pub data Speed : Type 0 where
  b0 : Speed
  b50 : Speed
  b75 : Speed
  b110 : Speed
  b134 : Speed
  b150 : Speed
  b200 : Speed
  b300 : Speed
  b600 : Speed
  b1200 : Speed
  b1800 : Speed
  b2400 : Speed
  b4800 : Speed
  b9600 : Speed
  b19200 : Speed
  b38400 : Speed
  b57600 : Speed
  b115200 : Speed
  b230400 : Speed

-- What stands behind `return` in the case of the constant.
abbrev pub baud : Speed → ℕ
baud b0 = 0
baud b50 = 50
baud b75 = 75
baud b110 = 110
baud b134 = 134
baud b150 = 150
baud b200 = 200
baud b300 = 300
baud b600 = 600
baud b1200 = 1200
baud b1800 = 1800
baud b2400 = 2400
baud b4800 = 4800
baud b9600 = 9600
baud b19200 = 19200
baud b38400 = 38400
baud b57600 = 57600
baud b115200 = 115200
baud b230400 = 230400

-- The cases of the `switch` that stand under no `#ifdef`, in their order.
abbrev pub plain_cases : List Speed
plain_cases =
    b0 ∷ b50 ∷ b75 ∷ b110 ∷ b134 ∷ b150 ∷ b200 ∷ b300 ∷ b600 ∷ b1200 ∷ b1800 ∷ b2400 ∷ b4800 ∷ b9600
    ∷ b19200 ∷ b38400 ∷ []

-- Those under an `#ifdef`, and which of them the system defines.
pub record Defined : Type 0 where
  pub has_b57600 : Bool
  pub has_b115200 : Bool
  pub has_b230400 : Bool

abbrev pub cases : Defined → List Speed
cases d =
    plain_cases
    ++ ((if d.has_b57600 then b57600 ∷ [] else [])
        ++ ((if d.has_b115200 then b115200 ∷ [] else [])
            ++ (if d.has_b230400 then b230400 ∷ [] else [])))

-- What is printed, in the order of the program.
pub data Message : Type 0 where
  is_terminal : Message
  not_terminal : Message
  tcgetattr_error : Message
  speeds : Option ℕ → Option ℕ → Message
  real_speeds : Option ℕ → Option ℕ → Message
  size_changed : Message
  size : ℕ → ℕ → Message
  ioctl_error : Message
  register_error : Message

-- What was printed, and whether the program goes on or exits with a failure.
pub data Outcome : Type 0 where
  goes_on : List Message → Outcome
  exit_failure : List Message → Outcome

abbrev pub before : List Message → Outcome → Outcome
before ms (goes_on ns) = goes_on (ms ++ ns)
before ms (exit_failure ns) = exit_failure (ms ++ ns)

-- The reply of `ioctl`, with the rows and the columns.
unfoldable pub get_win_size : Bool → Option (ℕ × ℕ) → Outcome
get_win_size signaled reply =
    let first = if signaled then size_changed ∷ [] else [] in
    elim reply [
      | none ↦ exit_failure (first ++ (ioctl_error ∷ []))
      | some (rows, columns) ↦ goes_on (first ++ (size rows columns ∷ []))
    ]

module _ (code : Speed → ℕ) where
  -- The `switch` over the cases; `none` for the -1 of `default`.
  unfoldable pub switch : ℕ → List Speed → Option ℕ
  switch speed [] = none
  switch speed (b ∷ bs) =
      let rest = switch speed bs in if speed == code b then some (baud b) else rest

module _ (code : Speed → ℕ) (defined : Defined) where
  unfoldable pub speed_to_baud : ℕ → Option ℕ
  unfolding switch
  speed_to_baud speed = switch code speed (cases defined)

  -- `main` up to the loop over `pause`. `tc` has the speeds that are in the structure after `tcgetattr`, also
  -- where that call failed.
  unfoldable pub main : Bool → Bool → ℕ × ℕ → ℕ × ℕ → Option (ℕ × ℕ) → Bool → Outcome
  unfolding speed_to_baud get_win_size
  main isatty tcgetattr_ok (ispeed, ospeed) (cf_ispeed, cf_ospeed) reply signal_ok =
      if not isatty
      then exit_failure (not_terminal ∷ [])
      else before
          (is_terminal
            ∷ ((if tcgetattr_ok then [] else tcgetattr_error ∷ [])
                ++ (speeds (speed_to_baud ispeed) (speed_to_baud ospeed)
                    ∷ real_speeds (speed_to_baud cf_ispeed) (speed_to_baud cf_ospeed)
                    ∷ [])))
          (elim (get_win_size false reply) [
            | exit_failure ms ↦ exit_failure ms
            | goes_on ms ↦
                if signal_ok then goes_on ms else exit_failure (ms ++ (register_error ∷ []))
          ])
