-- ===== src/Md.antt =====
-- include/trading/md: the order book and the market data it is fed with.
pub mod Bitmap
pub mod BoundedBook
pub mod Messages
pub mod Parser
pub mod Auth
pub mod WsClient
