-- ===== src/Tests.antt =====
-- Concrete runs, over the rational numbers.
mod Accounts
mod Backtesting
mod Rewarding
mod Quoting
mod Scanning
mod Expiring
mod Transpiling
mod Generating
mod Exchange
mod Sessions
mod Commands
