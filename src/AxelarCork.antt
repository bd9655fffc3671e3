-- ===== src/AxelarCork.antt =====
-- x/axelarcork: calls of cellars on other chains, voted on by validators and relayed through Axelar.
pub mod Types
pub mod Tally
pub mod Relay
pub mod Validate
pub mod Genesis
pub mod Reading
pub mod Cellars
pub mod Spend
pub mod Handler
pub mod Invariant
mod Tests
pub mod Messages
pub mod Packet
