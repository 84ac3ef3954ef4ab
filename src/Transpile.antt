-- ===== src/Transpile.antt =====
-- pmstrat/pmstrat/transpile.py
pub mod Syntax
pub mod Texts
pub mod Chars
pub mod Terms
pub mod Operators
pub mod Calls
pub mod Expressions
pub mod Options
pub mod Scan
pub mod Bindings
pub mod Statements
pub mod Reports
pub mod Validator
pub mod Params
pub mod Strategy
pub mod Module
pub mod Driver
pub mod TestTexts
pub mod TestGenerator
pub mod Registry
