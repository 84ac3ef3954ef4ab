-- ===== src/Clob.antt =====
-- pmtrader/polymarket/clob.py: the client of the order book exchange. What the server answers is a
-- parameter, the response to the n-th request of a session; the numbers are floats.
pub mod Hex
pub mod Session
pub mod Rpc
pub mod Chain
pub mod Holdings
pub mod Books
pub mod Orders
pub mod Account
