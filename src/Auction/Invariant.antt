-- ===== src/Auction/Invariant.antt =====
-- The consistency of the auction module's store (x/auction/keeper/keeper.go), and the writes that
-- keep it. The operations are in the child modules.
pub mod Operations
pub mod Blocks
pub mod Chain
use sommelier.Base.{
  ℕ, ◌+◌, ◌^◌, ◌≤◌, ◌<◌, ◌≡◌, ◌≢◌, refl, Bool, true, false, Option, none, some, List, [], ◌∷◌, any,
  ◌==◌, string_eq, String, arith, Option-cases, inl, inr, sym, ◌∙◌,
}
use text.Mathlib.TextEquality.{eq_iff}
use sommelier.Base.Table
use sommelier.Base.Table.{
  Table, values, Entries, get-set, get-delete, set-Entries, delete-Entries, get-Entries,
  Entries-zip,
}
use sommelier.Base.Table.Ordered.{
  Ordered, set-Ordered, delete-Ordered, nat_key, pair_key, nat_laws, pair_laws,
}
use sommelier.Sdk.{Coin}
use sommelier.Auction.Types.{Auction, Auctions, Bid}
use sommelier.Auction.Store.{
  set_active_auction, set_ended_auction, delete_active_auction, delete_ended_auction, set_bid,
  delete_bid, set_last_auction_id, set_last_bid_id,
}

module _ {Decimal : Type 0} where
  abbrev pub denom_of : Auction Decimal → String
  denom_of a = a.starting_tokens_for_sale.denom

  abbrev pub ActiveAt : ℕ → ℕ → Auction Decimal → Type 0
  ActiveAt last i a = (a.id ≡ i) × (0 < i) × (i ≤ last) × (a.end_block ≡ 0)

  abbrev pub EndedAt : ℕ → ℕ → Auction Decimal → Type 0
  EndedAt last i a = (a.id ≡ i) × (0 < i) × (i ≤ last)

  abbrev pub BidAt : ℕ → ℕ × ℕ → Bid Decimal → Type 0
  BidAt last k b = (b.auction_id ≡ k.0) × (b.id ≡ k.1) × (0 < k.1) × (k.1 ≤ last)

  -- Ids are unique, keys are the ids of what they hold, no id is beyond the last one, an auction is
  -- active or ended, and a denom has one active auction at most.
  pub record IsConsistent (s : Auctions Decimal) : Type 0 where
    pub active_ordered : Ordered s.active
    pub ended_ordered : Ordered s.ended
    pub bids_ordered : Ordered s.bids
    pub active_ids : Entries (ActiveAt s.last_auction_id) s.active
    pub ended_ids : Entries (EndedAt s.last_auction_id) s.ended
    pub bid_ids : Entries (BidAt s.last_bid_id) s.bids
    pub auction_bound : s.last_auction_id < 2 ^ 32
    pub bid_bound : s.last_bid_id < 2 ^ 64
    pub apart :
        (i : ℕ) (a : Auction Decimal) → Table.get i s.active ≡ some a → Table.get i s.ended ≡ none
    pub one_per_denom :
        (i j : ℕ) (a b : Auction Decimal)
        → Table.get i s.active ≡ some a
        → Table.get j s.active ≡ some b
        → denom_of a ≡ denom_of b
        → i ≡ j

  -- No ended auction has an id beyond the last one.
  ended_beyond :
      (s : Auctions Decimal)
      → IsConsistent s
      → (i : ℕ) → s.last_auction_id < i
      → Table.get i s.ended ≡ none
  ended_beyond s c i h = elim (Option-cases (Table.get i s.ended)) [
    | inl e ↦ e
    | inr (a, e) ↦
        absurd (omega (arith, get-Entries (EndedAt s.last_auction_id) i a s.ended c.ended_ids e))
  ]

  -- An auction that is found is one of the values.
  any-values :
      (p : Auction Decimal → Bool) (i : ℕ) (a : Auction Decimal) (t : Table ℕ (Auction Decimal))
      → any p (values t) ≡ false
      → Table.get i t ≡ some a
      → p a ≡ false
  any-values p i a t h e = get-Entries (λ _ b. p b ≡ false) i a t (each t h) e
    where
      each :
          (t : Table ℕ (Auction Decimal))
          → any p (values t) ≡ false
          → Entries (λ _ b. p b ≡ false) t
      each [] h = tt
      each ((j, b) ∷ t) h = ground (arith, each t)

  raise_active :
      (m n : ℕ) (t : Table ℕ (Auction Decimal))
      → m ≤ n
      → Entries (ActiveAt m) t
      → Entries (ActiveAt n) t
  raise_active m n t h e =
      Entries-zip (ActiveAt m) (ActiveAt m) (ActiveAt n) t (λ i a k _. (k.0, k.1, omega arith, k.3))
        e e

  raise_ended :
      (m n : ℕ) (t : Table ℕ (Auction Decimal))
      → m ≤ n
      → Entries (EndedAt m) t
      → Entries (EndedAt n) t
  raise_ended m n t h e =
      Entries-zip (EndedAt m) (EndedAt m) (EndedAt n) t (λ i a k _. (k.0, k.1, omega arith)) e e

  raise_bids :
      (m n : ℕ) (t : Table (ℕ × ℕ) (Bid Decimal))
      → m ≤ n
      → Entries (BidAt m) t
      → Entries (BidAt n) t
  raise_bids m n t h e =
      Entries-zip (BidAt m) (BidAt m) (BidAt n) t (λ i a k _. (k.0, k.1, k.2, omega arith)) e e

  pub open-IsConsistent :
      (a : Auction Decimal) (s : Auctions Decimal)
      → IsConsistent s
      → any (λ b. denom_of b == denom_of a) (values s.active) ≡ false
      → a.id ≡ s.last_auction_id + 1
      → a.id < 2 ^ 32
      → a.end_block ≡ 0
      → IsConsistent (set_last_auction_id a.id (set_active_auction a s))
  open-IsConsistent a s c free e bound no_end = record {
    active_ordered = set-Ordered nat_laws a.id a s.active c.active_ordered;
    ended_ordered = c.ended_ordered;
    bids_ordered = c.bids_ordered;
    active_ids =
        set-Entries (ActiveAt a.id) a.id a s.active (refl, omega arith, omega arith, no_end)
          (raise_active s.last_auction_id a.id s.active (omega arith) c.active_ids);
    ended_ids = raise_ended s.last_auction_id a.id s.ended (omega arith) c.ended_ids;
    bid_ids = c.bid_ids;
    auction_bound = bound;
    bid_bound = c.bid_bound;
    apart = λ i b f. grind (arith, get-set, c.apart, ended_beyond s c);
    one_per_denom = λ i j b d f g same. grind (arith, get-set, c.one_per_denom, any-values, eq_iff);
  }

  -- An active auction is replaced by a version of itself.
  pub update-IsConsistent :
      (a b : Auction Decimal) (s : Auctions Decimal)
      → IsConsistent s
      → Table.get a.id s.active ≡ some b
      → denom_of b ≡ denom_of a
      → a.end_block ≡ 0
      → IsConsistent (set_active_auction a s)
  update-IsConsistent a b s c found same no_end = record {
    active_ordered = set-Ordered nat_laws a.id a s.active c.active_ordered;
    ended_ordered = c.ended_ordered;
    bids_ordered = c.bids_ordered;
    active_ids =
        let old = get-Entries (ActiveAt s.last_auction_id) a.id b s.active c.active_ids found in
        set-Entries (ActiveAt s.last_auction_id) a.id a s.active (refl, old.1, old.2, no_end)
          c.active_ids;
    ended_ids = c.ended_ids;
    bid_ids = c.bid_ids;
    auction_bound = c.auction_bound;
    bid_bound = c.bid_bound;
    apart = λ i d f. grind (arith, get-set, c.apart);
    one_per_denom = λ i j d e f g eq. grind (arith, get-set, c.one_per_denom);
  }

  pub bid-IsConsistent :
      (b : Bid Decimal) (s : Auctions Decimal)
      → IsConsistent s
      → b.id ≡ s.last_bid_id + 1
      → b.id < 2 ^ 64
      → IsConsistent (set_last_bid_id b.id (set_bid b s))
  bid-IsConsistent b s c e bound = record {
    active_ordered = c.active_ordered;
    ended_ordered = c.ended_ordered;
    bids_ordered = set-Ordered pair_laws (b.auction_id, b.id) b s.bids c.bids_ordered;
    active_ids = c.active_ids;
    ended_ids = c.ended_ids;
    bid_ids =
        set-Entries (BidAt b.id) (b.auction_id, b.id) b s.bids
          (refl, refl, omega arith, omega arith)
          (raise_bids s.last_bid_id b.id s.bids (omega arith) c.bid_ids);
    auction_bound = c.auction_bound;
    bid_bound = bound;
    apart = c.apart;
    one_per_denom = c.one_per_denom;
  }

  -- An active auction is moved to the ended ones.
  pub close-IsConsistent :
      (a b : Auction Decimal) (s : Auctions Decimal)
      → IsConsistent s
      → Table.get a.id s.active ≡ some b
      → IsConsistent (set_ended_auction a (delete_active_auction a.id s))
  close-IsConsistent a b s c found = record {
    active_ordered = delete-Ordered nat_laws a.id s.active c.active_ordered;
    ended_ordered = set-Ordered nat_laws a.id a s.ended c.ended_ordered;
    bids_ordered = c.bids_ordered;
    active_ids = delete-Entries (ActiveAt s.last_auction_id) a.id s.active c.active_ids;
    ended_ids =
        let old = get-Entries (ActiveAt s.last_auction_id) a.id b s.active c.active_ids found in
        set-Entries (EndedAt s.last_auction_id) a.id a s.ended (refl, old.1, old.2) c.ended_ids;
    bid_ids = c.bid_ids;
    auction_bound = c.auction_bound;
    bid_bound = c.bid_bound;
    apart = λ i d f. grind (arith, get-set, get-delete, c.apart);
    one_per_denom = λ i j d e f g eq. grind (arith, get-delete, c.one_per_denom);
  }

  pub delete_ended-IsConsistent :
      (id : ℕ) (s : Auctions Decimal) → IsConsistent s → IsConsistent (delete_ended_auction id s)
  delete_ended-IsConsistent id s c = record {
    active_ordered = c.active_ordered;
    ended_ordered = delete-Ordered nat_laws id s.ended c.ended_ordered;
    bids_ordered = c.bids_ordered;
    active_ids = c.active_ids;
    ended_ids = delete-Entries (EndedAt s.last_auction_id) id s.ended c.ended_ids;
    bid_ids = c.bid_ids;
    auction_bound = c.auction_bound;
    bid_bound = c.bid_bound;
    apart = λ i d f. grind (arith, get-delete, c.apart);
    one_per_denom = c.one_per_denom;
  }

  pub delete_bid-IsConsistent :
      (auction_id id : ℕ) (s : Auctions Decimal)
      → IsConsistent s
      → IsConsistent (delete_bid auction_id id s)
  delete_bid-IsConsistent auction_id id s c = record {
    active_ordered = c.active_ordered;
    ended_ordered = c.ended_ordered;
    bids_ordered = delete-Ordered pair_laws (auction_id, id) s.bids c.bids_ordered;
    active_ids = c.active_ids;
    ended_ids = c.ended_ids;
    bid_ids = delete-Entries (BidAt s.last_bid_id) (auction_id, id) s.bids c.bid_ids;
    auction_bound = c.auction_bound;
    bid_bound = c.bid_bound;
    apart = c.apart;
    one_per_denom = c.one_per_denom;
  }
