-- ===== src/Runtime.antt =====
-- core/runtime.hpp and src/core/runtime.cpp, `class Runtime`: the two threads and what they share.
-- The children hold the handlers of the network thread and of the strategy thread.
pub mod State
pub mod Settings
pub mod Config
pub mod Network
pub mod Orders
pub mod Trading
pub mod Steps
pub mod Safety
pub mod Counters
pub mod Client
pub mod Main
mod Tests
