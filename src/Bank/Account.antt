-- ===== src/Bank/Account.antt =====
-- codes/cplusplus/classInheritance/brass_bank.cpp: BrassAccount and BrassPlusAccount.
use ukgoll_github_io.Prelude.{
  ℕ, ◌+◌, ◌-◌, ◌%◌, ◌^◌, Bool, true, false, List, [], ◌∷◌, ◌++◌, ltb, if◌then◌else◌,
}

-- A uint64_t is a number below this one.
abbrev pub u64 : ℕ
u64 = 2 ^ 64

-- The class of the object, by which a virtual function is chosen: `plus` with `overdraft_limit` and `rate`.
pub data Class : Type 0 where
  brass : Class
  plus : ℕ → ℕ → Class

pub record Account : Type 0 where
  pub class : Class
  pub balance : ℕ
  pub account_number : ℕ
  pub client_name : List ℕ

-- The constructor of BrassAccount, which BrassPlusAccount's calls with its own class: the account, and
-- the static `next_account_number` after it.
unfoldable pub new_account : Class → List ℕ → ℕ → ℕ → Account × ℕ
new_account class name bal next = (
  record { class = class; balance = bal; account_number = next; client_name = name },
  (next + 1) % u64,
)

abbrev pub default_rate : ℕ
default_rate = 11125

abbrev pub default_overdraft_limit : ℕ
default_overdraft_limit = 1000

unfoldable pub deposite : ℕ → Account → Account × Bool
deposite amount a = (record a { balance = (a.balance + amount) % u64 }, true)

-- `BrassAccount::withdraw`
unfoldable pub brass_withdraw : ℕ → Account → Account × Bool
brass_withdraw amount a =
    if ltb a.balance amount
    then (a, false)
    else (record a { balance = (a.balance + u64 - amount) % u64 }, true)

-- `BrassPlusAccount::withdraw`
unfoldable pub plus_withdraw : ℕ → Account → Account × Bool
unfolding brass_withdraw
plus_withdraw amount a = brass_withdraw amount a

-- `withdraw` of an object, which is virtual.
unfoldable pub withdraw : ℕ → Account → Account × Bool
unfolding brass_withdraw plus_withdraw
withdraw amount a = elim (a.class) [
  | brass ↦ brass_withdraw amount a
  | plus limit rate ↦ plus_withdraw amount a
]

pub data Line : Type 0 where
  overdraft_line : ℕ → Line
  rate_line : ℕ → Line
  name_line : List ℕ → Line
  number_line : ℕ → Line
  balance_line : ℕ → Line
  separator : Line

unfoldable pub brass_display : Account → List Line
brass_display a =
    name_line a.client_name ∷ number_line a.account_number ∷ balance_line a.balance ∷ []

-- `display` of an object, which is virtual.
unfoldable pub display : Account → List Line
unfolding brass_display
display a = elim (a.class) [
  | brass ↦ brass_display a
  | plus limit rate ↦ overdraft_line limit ∷ rate_line rate ∷ brass_display a
]

-- What `main` prints, with the two names.
unfoldable pub main : List ℕ → List ℕ → List Line
unfolding new_account display
main vzgoll ukgoll =
    let (ba, next) = new_account brass vzgoll 1000 1 in
    let (bpa, next') = new_account (plus default_overdraft_limit default_rate) ukgoll 2000 next in
    display ba ++ (separator ∷ display bpa)
