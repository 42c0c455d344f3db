-- ===== src/Bank/Tests.antt =====
-- Runs of brass_bank.cpp, and the theorems at them.
use ukgoll_github_io.Prelude.{◌+◌, ◌-◌, ◌≡◌, refl, true, false, List, [], ◌∷◌, arith}
use ukgoll_github_io.Bank.Account.{
  u64, brass, plus, Account, withdraw, main, name_line, number_line, balance_line, overdraft_line,
  rate_line, separator,
}
use ukgoll_github_io.Bank.Ledger.{
  Op, deposit_op, withdraw_op, run, ledger, deposited, paid_out, Opening, opening, open_all,
  run-ledger, money_conserved,
}

-- An account with an overdraft limit of 1000.
abbrev overdraft : Account
overdraft = record { class = plus 1000 11125; balance = 500; account_number = 1; client_name = [] }

-- The limit is not used: 600 are refused.
limit_not_used : (withdraw 600 overdraft).1 ≡ false
unfolding withdraw
limit_not_used = refl

abbrev calls : List Op
calls = deposit_op 200 ∷ withdraw_op 600 ∷ withdraw_op 600 ∷ []

run-ledger_example :
    ((run calls overdraft).0 ≡ record overdraft { balance = (ledger calls 500).0 })
    × ((run calls overdraft).1 ≡ (ledger calls 500).1)
run-ledger_example = run-ledger calls overdraft (omega arith)

calls_answered : (ledger calls 500) ≡ (100, true ∷ true ∷ false ∷ [])
calls_answered = refl

-- A deposit that takes the sum to 2 ^ 64.
abbrev wrapping : List Op
wrapping = deposit_op (u64 - 500) ∷ []

money_conserved_example :
    (run calls overdraft).0.balance + paid_out calls (run calls overdraft).1 ≡ 500 + deposited calls
money_conserved_example = money_conserved calls overdraft (omega arith)

money_gone : (run wrapping overdraft).0.balance ≡ 0
unfolding run
money_gone = refl

abbrev two_openings : List Opening
two_openings = opening brass [] 1000 ∷ opening (plus 1000 11125) [] 2000 ∷ []

two_numbers : open_all two_openings 1 ≡ 1 ∷ 2 ∷ []
unfolding open_all
two_numbers = refl

displayed :
    main (118 ∷ []) (117 ∷ [])
    ≡ name_line (118 ∷ [])
      ∷ number_line 1
      ∷ balance_line 1000
      ∷ separator
      ∷ overdraft_line 1000
      ∷ rate_line 11125
      ∷ name_line (117 ∷ [])
      ∷ number_line 2
      ∷ balance_line 2000
      ∷ []
unfolding main
displayed = refl
