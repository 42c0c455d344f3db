-- ===== src/Bank.antt =====
-- codes/cplusplus/classInheritance/brass_bank.cpp: its accounts, what they keep, and runs.
mod Account
mod Ledger
mod Tests
