-- ===== src/Strategies.antt =====
-- pmstrat/pmstrat/strategies: the strategies, each a function from the context to its signals.
pub mod Quoting
pub mod SpreadWatcher
pub mod MarketMaker
pub mod DynamicMarketMaker
pub mod SureBets
pub mod Words
