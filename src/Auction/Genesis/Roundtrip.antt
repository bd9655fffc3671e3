-- ===== src/Auction/Genesis/Roundtrip.antt =====
-- Exporting the genesis state and loading it again.
use sommelier.Base.{ℕ, ◌<◌, ◌≡◌, refl, ap, true, none, List, [], ◌∷◌, ◌++◌, arith, String, nat_eq}
use sommelier.Base.Table.{Table, values, Entries}
use sommelier.Base.Table.Ordered.{Ordered, nat_key, pair_key, text_key, nat_laws, pair_laws}
use sommelier.Base.Table.Text.{text_laws}
use sommelier.Base.Table.Refill.{fill, fill-nil}
use sommelier.Base.Exec.{ok}
use sommelier.Sdk.{Sdk}
use sommelier.Auction.Params.{validate_params}
use sommelier.Auction.Types.{Params, Auction, Auctions, Bid, TokenPrice}
use sommelier.Auction.Store.{set_ended_auction, set_active_auction, set_bid, set_token_price}
use sommelier.Auction.Genesis.{set_each, file_auction, load_genesis, export_genesis, init_genesis}
use sommelier.Auction.Invariant.{IsConsistent, ActiveAt, BidAt}

module _ {Decimal : Type 0} where
  set_each-append :
      {A : Type 0} (f : A → Auctions Decimal → Auctions Decimal) (xs ys : List A)
      (s : Auctions Decimal)
      → set_each f (xs ++ ys) s ≡ set_each f ys (set_each f xs s)
  unfolding set_each
  set_each-append f [] ys s = refl
  set_each-append f (x ∷ xs) ys s = set_each-append f xs ys (f x s)

  load_active :
      (last : ℕ) (t : Table ℕ (Auction Decimal)) (s : Auctions Decimal)
      → Entries (ActiveAt last) t
      → set_each file_auction (values t) s ≡ record s { active = fill s.active t }
  unfolding set_each fill
  load_active last [] s h = refl
  load_active last ((i, a) ∷ t) s h =
      ground (arith, load_active last t (set_active_auction a s) h.1)

  load_ended :
      (t : Table ℕ (Auction Decimal)) (s : Auctions Decimal)
      → Entries (λ i a. (a.id ≡ i) × (0 < a.end_block)) t
      → set_each file_auction (values t) s ≡ record s { ended = fill s.ended t }
  unfolding set_each fill
  load_ended [] s h = refl
  load_ended ((i, a) ∷ t) s h = ground (arith, load_ended t (set_ended_auction a s) h.1)

  load_bids :
      (last : ℕ) (t : Table (ℕ × ℕ) (Bid Decimal)) (s : Auctions Decimal)
      → Entries (BidAt last) t
      → set_each set_bid (values t) s ≡ record s { bids = fill s.bids t }
  unfolding set_each fill
  load_bids last [] s h = refl
  load_bids last ((k, b) ∷ t) s h = ground (arith, load_bids last t (set_bid b s) h.1)

  load_prices :
      (t : Table String (TokenPrice Decimal)) (s : Auctions Decimal)
      → Entries (λ d p. p.denom ≡ d) t
      → set_each set_token_price (values t) s ≡ record s { token_prices = fill s.token_prices t }
  unfolding set_each fill
  load_prices [] s h = refl
  load_prices ((d, p) ∷ t) s h = ground (arith, load_prices t (set_token_price p s) h.1)

  -- A store that is empty but for its parameters.
  abbrev pub bare : Params Decimal → Auctions Decimal
  bare p = record {
    params = p;
    active = [];
    ended = [];
    bids = [];
    token_prices = [];
    last_auction_id = 0;
    last_bid_id = 0;
  }

  -- The writes after the parameters' restore the tables and the two last ids.
  load_genesis-export_genesis :
      (s : Auctions Decimal)
      → IsConsistent s
      → Entries (λ i a. (a.id ≡ i) × (0 < a.end_block)) s.ended
      → Ordered s.token_prices
      → Entries (λ d p. p.denom ≡ d) s.token_prices
      → load_genesis (export_genesis s) (bare s.params) ≡ s
  unfolding load_genesis export_genesis
  load_genesis-export_genesis s c ended ordered denoms = rw (
    set_each-append,
    load_active s.last_auction_id s.active _ c.active_ids,
    load_ended s.ended _ ended,
    load_bids s.last_bid_id s.bids _ c.bid_ids,
    load_prices s.token_prices _ denoms,
    fill-nil nat_laws s.active c.active_ordered,
    fill-nil nat_laws s.ended c.ended_ordered,
    fill-nil pair_laws s.bids c.bids_ordered,
    fill-nil text_laws s.token_prices ordered,
  )

module _ ⦃sdk : Sdk⦄ where
  -- If the account of the module is set, the store is consistent, its parameters validate, every ended
  -- auction is under its id and has an end block, and the prices ascend under their own denoms, then
  -- `InitGenesis` of the exported genesis succeeds in a world whose store has any parameters and nothing
  -- else, and gives the store back, the parameters included. The bank is left as it is.
  pub load-export :
      (s : Auctions sdk.Decimal) (p : Params sdk.Decimal) (bank : sdk.Bank)
      → IsConsistent s
      → validate_params s.params ≡ none
      → Entries (λ i a. (a.id ≡ i) × (0 < a.end_block)) s.ended
      → Ordered s.token_prices
      → Entries (λ d q. q.denom ≡ d) s.token_prices
      → init_genesis true (export_genesis s) (record { store = bare p; bank = bank })
        ≡ (ok tt, record { store = s; bank = bank })
  unfolding init_genesis export_genesis
  load-export s p bank c valid ended ordered denoms = rw valid (
      ap (λ t. (ok tt, record { store = t; bank = bank }))
        (load_genesis-export_genesis s c ended ordered denoms))
