-- ===== src/Cli.antt =====
-- pmstrat/pmstrat/cli.py: the command line of pmstrat.
pub mod Args
pub mod Live
pub mod Transpiling
pub mod Linting
