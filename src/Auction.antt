-- ===== src/Auction.antt =====
-- x/auction: the auctions of tokens for usomm, from the message types to the block hooks.
pub mod Types
pub mod Validate
pub mod Params
pub mod Store
pub mod Begin
pub mod Finish
pub mod Bidding
pub mod EndBlock
pub mod Prices
pub mod Genesis
pub mod Reading
pub mod Invariant
pub mod Tests
