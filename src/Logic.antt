-- ===== src/Logic.antt =====
-- What correct native code owes its caller, read off the trace of its calls: a ledger of the
-- resources that it holds, and rules that prove a program's effect on the ledger.
pub mod Buffers
pub mod Ledger
pub mod Moves
pub mod Rules
pub mod Costs
pub mod Keeps
pub mod Stays
pub mod Story
