-- ===== src/Bank/Ledger.antt =====
-- codes/cplusplus/classInheritance/brass_bank.cpp: accounts over any sequence of calls, and a ledger
-- of plain numbers beside them.
use ukgoll_github_io.Prelude.{
  ℕ, zero, suc, ◌+◌, ◌-◌, ◌%◌, ◌<◌, ◌≤◌, ◌≡◌, ◌≢◌, refl, ap, ◌∙◌, Bool, true, false, some, List, [],
  ◌∷◌, ltb, if◌then◌else◌, get_elem?, arith, Bool-cases, inl, inr,
}
use ukgoll_github_io.Bank.Account.{
  u64, Class, brass, plus, Account, new_account, deposite, brass_withdraw, plus_withdraw, withdraw,
}

pub data Op : Type 0 where
  deposit_op : ℕ → Op
  withdraw_op : ℕ → Op

unfoldable pub apply : Op → Account → Account × Bool
unfolding deposite withdraw
apply (deposit_op n) a = deposite n a
apply (withdraw_op n) a = withdraw n a

-- The account after the calls, and what they returned.
unfoldable pub run : List Op → Account → Account × List Bool
unfolding apply
run [] a = (a, [])
run (o ∷ os) a = let (a', r) = apply o a in let (a'', rs) = run os a' in (a'', r ∷ rs)

-- The same calls on a plain number, which does not wrap and never falls below 0.
abbrev pub ledger : List Op → ℕ → ℕ × List Bool
ledger [] b = (b, [])
ledger (deposit_op n ∷ os) b = let (b', rs) = ledger os (b + n) in (b', true ∷ rs)
ledger (withdraw_op n ∷ os) b =
    let kept = ledger os b in
    let paid = ledger os (b - n) in
    if ltb b n then (kept.0, false ∷ kept.1) else (paid.0, true ∷ paid.1)

abbrev pub deposited : List Op → ℕ
deposited [] = 0
deposited (deposit_op n ∷ os) = n + deposited os
deposited (withdraw_op n ∷ os) = deposited os

-- The withdrawals that returned true.
abbrev pub paid_out : List Op → List Bool → ℕ
paid_out (withdraw_op n ∷ os) (true ∷ rs) = n + paid_out os rs
paid_out (_ ∷ os) (_ ∷ rs) = paid_out os rs
paid_out _ _ = 0

-- The class makes no difference to a withdrawal.
withdraw-brass_withdraw : (n : ℕ) (a : Account) → withdraw n a ≡ brass_withdraw n a
unfolding withdraw plus_withdraw
withdraw-brass_withdraw n a = go (a.class)
  where
    go :
        (c : Class)
        → elim c as (λ _. Account × Bool) [
          | brass ↦ brass_withdraw n a
          | plus limit rate ↦ plus_withdraw n a
        ]
          ≡ brass_withdraw n a
    go brass = refl
    go (plus limit rate) = refl

refused : (n : ℕ) (a : Account) → ltb a.balance n ≡ true → withdraw n a ≡ (a, false)
unfolding brass_withdraw
refused n a e = withdraw-brass_withdraw n a ∙ rw e refl

paid :
    (n : ℕ) (a : Account)
    → a.balance < u64
    → ltb a.balance n ≡ false
    → withdraw n a ≡ (record a { balance = a.balance - n }, true)
unfolding brass_withdraw
paid n a h e =
    let left : (a.balance + u64 - n) % u64 ≡ a.balance - n = ground (arith, h, e) in
    withdraw-brass_withdraw n a ∙ simp (e, left) refl

-- As long as what is held and put in stays below 2 ^ 64, an account of either class is the ledger of
-- plain numbers: the calls give the same answers, and at the end the balance is that of the ledger and
-- every other member is as it was.
pub run-ledger :
    (os : List Op) (a : Account)
    → a.balance + deposited os < u64
    → ((run os a).0 ≡ record a { balance = (ledger os a.balance).0 })
      × ((run os a).1 ≡ (ledger os a.balance).1)
unfolding run apply deposite
run-ledger [] a h = (refl, refl)
run-ledger (deposit_op n ∷ os) a h =
    let fits : (a.balance + n) % u64 ≡ a.balance + n = omega (arith, h) in
    let (b, r) = run-ledger os (record a { balance = a.balance + n }) (omega (arith, h)) in
    rw fits (b, ap (λ l. true ∷ l) r)
run-ledger (withdraw_op n ∷ os) a h = elim (Bool-cases (ltb a.balance n)) [
  | inl e ↦ let (b, r) = run-ledger os a h in rw (e, refused n a e) (b, ap (λ l. false ∷ l) r)
  | inr e ↦
      let (b, r) = run-ledger os (record a { balance = a.balance - n }) (omega (arith, h)) in
      rw (e, paid n a (omega (arith, h)) e) (b, ap (λ l. true ∷ l) r)
]

ledger_conserves :
    (os : List Op) (b : ℕ) → (ledger os b).0 + paid_out os (ledger os b).1 ≡ b + deposited os
ledger_conserves [] b = refl
ledger_conserves (deposit_op n ∷ os) b = omega (arith, ledger_conserves os (b + n))
ledger_conserves (withdraw_op n ∷ os) b = elim (Bool-cases (ltb b n)) [
  | inl e ↦ rw e (ledger_conserves os b)
  | inr e ↦
      let enough : n ≤ b = ground (arith, e) in
      rw e (omega (arith, ledger_conserves os (b - n), enough))
]

-- As long as what is held and put in stays below 2 ^ 64: the balance at the end and what the
-- withdrawals that returned true have paid out are together, as plain numbers, what was held and put in.
pub money_conserved :
    (os : List Op) (a : Account)
    → a.balance + deposited os < u64
    → (run os a).0.balance + paid_out os (run os a).1 ≡ a.balance + deposited os
money_conserved os a h =
    let (b, r) = run-ledger os a h in
    let held : (run os a).0.balance ≡ (ledger os a.balance).0 = ap (λ c. c.balance) b in
    rw (held, r) (ledger_conserves os a.balance)

pub data Opening : Type 0 where
  opening : Class → List ℕ → ℕ → Opening

-- The numbers of accounts opened one after the other.
unfoldable pub open_all : List Opening → ℕ → List ℕ
unfolding new_account
open_all [] next = []
open_all (opening class name bal ∷ more) next =
    let (a, next') = new_account class name bal next in a.account_number ∷ open_all more next'

open_all-number :
    (l : List Opening) (next i m : ℕ)
    → get_elem? (open_all l next) i ≡ some m
    → next < u64
    → m ≡ (next + i) % u64
unfolding open_all new_account
open_all-number [] next i m e h = absurd (cc e)
open_all-number (opening class name bal ∷ more) next zero m e h =
    let same : next ≡ m = cc e in omega (arith, same, h)
open_all-number (opening class name bal ∷ more) next (suc i) m e h =
    open_all-number more ((next + 1) % u64) i m e (omega arith) ∙ omega arith

-- No two of the first 2 ^ 64 accounts that are opened one after the other get one number.
numbers_differ :
    (l : List Opening) (next i j m n : ℕ)
    → next < u64
    → get_elem? (open_all l next) i ≡ some m
    → get_elem? (open_all l next) j ≡ some n
    → i < j
    → j < i + u64
    → m ≢ n
numbers_differ l next i j m n h e f p q =
    let a = open_all-number l next i m e h in
    let b = open_all-number l next j n f h in omega (arith, a, b, p, q)
