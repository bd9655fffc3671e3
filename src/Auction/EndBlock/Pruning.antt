-- ===== src/Auction/EndBlock/Pruning.antt =====
-- The pruning step of `EndBlocker`: which ended auctions and which bids it removes.
use mathlib.Core.List.{reverse}
use sommelier.Base.{
  ℕ, ◌≡◌, refl, String, true, none, List, [], ◌∷◌, arith, Bool-cases, inl, inr, not, ◌&&◌, ◌||◌, ap,
  ltb, ◌==◌, nat_eq, string_eq, any, if◌then◌else◌, ◌∙◌, if_rule,
}
use sommelier.Base.Word.{sub_u64}
use text.Mathlib.TextEquality.{eq_iff}
use sommelier.Base.Table.{get-delete}
use sommelier.Base.Table.Ordered.{nat_key, pair_key}
use sommelier.Sdk.{Sdk}
use sommelier.Auction.Types.{Auction, Auctions, Bid}
use sommelier.Auction.Store.{get_ended_auctions, get_ended_auction, get_bids_by_auction, delete_bid}
use sommelier.Auction.EndBlock.{delete_bids, drop_auction, prune, prunable, prune_ended}

module _ ⦃sdk : Sdk⦄ where
  active-delete_bids :
      (id : ℕ) (bids : List (Bid sdk.Decimal)) (s : Auctions sdk.Decimal)
      → (delete_bids id bids s).active ≡ s.active
  unfolding delete_bids
  active-delete_bids id [] s = refl
  active-delete_bids id (b ∷ bids) s = active-delete_bids id bids (delete_bid id b.id s)

  ended-delete_bids :
      (id : ℕ) (bids : List (Bid sdk.Decimal)) (s : Auctions sdk.Decimal)
      → (delete_bids id bids s).ended ≡ s.ended
  unfolding delete_bids
  ended-delete_bids id [] s = refl
  ended-delete_bids id (b ∷ bids) s = ended-delete_bids id bids (delete_bid id b.id s)

  active-drop_auction :
      (a : Auction sdk.Decimal) (s : Auctions sdk.Decimal) → (drop_auction a s).active ≡ s.active
  unfolding drop_auction
  active-drop_auction a s = active-delete_bids a.id (get_bids_by_auction a.id s) s

  active-prune :
      (height age : ℕ) (seen : List String) (left : List (Auction sdk.Decimal))
      (s : Auctions sdk.Decimal)
      → (prune height age seen left s).active ≡ s.active
  unfolding prune
  active-prune height age seen [] s = refl
  active-prune height age seen (a ∷ left) s =
      if_rule (λ (t : Auctions sdk.Decimal). t.active ≡ s.active) (prunable height age seen a) _ _
        (active-prune height age seen left (drop_auction a s) ∙ active-drop_auction a s)
        (active-prune height age (a.starting_tokens_for_sale.denom ∷ seen) left s)

  pub active-prune_ended :
      (height : ℕ) (s : Auctions sdk.Decimal) → (prune_ended height s).active ≡ s.active
  unfolding prune_ended
  active-prune_ended height s =
      if_rule (λ (t : Auctions sdk.Decimal). t.active ≡ s.active)
        (s.params.auction_max_block_age == 0) s
        (prune height s.params.auction_max_block_age [] (reverse (get_ended_auctions s)) s) refl
        (active-prune height s.params.auction_max_block_age [] (reverse (get_ended_auctions s)) s)

  -- A lookup among the ended auctions after one is dropped.
  ended-drop_auction :
      (a : Auction sdk.Decimal) (j : ℕ) (s : Auctions sdk.Decimal)
      → get_ended_auction j (drop_auction a s) ≡ (if j == a.id then none else get_ended_auction j s)
  unfolding drop_auction
  ended-drop_auction a j s = rw (get-delete, ended-delete_bids)

  -- What pruning is meant to remove, of the ended auctions from the latest on: each that ended before
  -- the cutoff and has a later one of its denom.
  pub stale : ℕ → List String → List (Auction sdk.Decimal) → List (Auction sdk.Decimal)
  stale cutoff seen [] = []
  stale cutoff seen (a ∷ left) =
      let rest = stale cutoff (a.starting_tokens_for_sale.denom ∷ seen) left in
      if any (λ d. d == a.starting_tokens_for_sale.denom) seen && ltb a.end_block cutoff
      then a ∷ rest
      else rest

  pub drop_all : List (Auction sdk.Decimal) → Auctions sdk.Decimal → Auctions sdk.Decimal
  drop_all [] s = s
  drop_all (a ∷ dropped) s = drop_all dropped (drop_auction a s)

  -- A denom that has been met is met once more to no effect.
  stale_again :
      (cutoff : ℕ) (seen seen' : List String) (left : List (Auction sdk.Decimal))
      → ((e : String) → any (λ d. d == e) seen ≡ any (λ d. d == e) seen')
      → stale cutoff seen left ≡ stale cutoff seen' left
  unfolding stale
  stale_again cutoff seen seen' [] same = refl
  stale_again cutoff seen seen' (a ∷ left) same =
      let d = a.starting_tokens_for_sale.denom in
      ground (
        arith,
        same d,
        stale_again cutoff (d ∷ seen) (d ∷ seen') left (λ e. ap (λ b. d == e || b) (same e)),
      )

  seen_twice :
      (d e : String) (seen : List String)
      → any (λ c. c == d) seen ≡ true
      → any (λ c. c == e) (d ∷ seen) ≡ any (λ c. c == e) seen
  seen_twice d e (c ∷ seen) h =
      ground (arith, seen_twice d e seen, eq_iff c d, eq_iff d e, eq_iff c e)
  seen_twice d e [] h = cc

  -- The loop that adds a denom to the seen ones only where it keeps an auction removes what it is
  -- meant to.
  prune-eq-drop_all :
      (height age : ℕ) (seen : List String) (left : List (Auction sdk.Decimal))
      (s : Auctions sdk.Decimal)
      → prune height age seen left s ≡ drop_all (stale (sub_u64 height age) seen left) s
  unfolding prune stale drop_all prunable
  prune-eq-drop_all height age seen [] s = refl
  prune-eq-drop_all height age seen (a ∷ left) s =
      let d = a.starting_tokens_for_sale.denom in
      let cutoff = sub_u64 height age in
      elim (Bool-cases (any (λ c. c == d) seen)) [
        | inl met ↦ ground (
          arith,
          met,
          prune-eq-drop_all height age seen left (drop_auction a s),
          prune-eq-drop_all height age (d ∷ seen) left s,
          stale_again cutoff (d ∷ seen) seen left (λ e. seen_twice d e seen met),
        )
        | inr new ↦ ground (arith, new, prune-eq-drop_all height age (d ∷ seen) left s)
      ]

  ended-drop_all :
      (dropped : List (Auction sdk.Decimal)) (j : ℕ) (s : Auctions sdk.Decimal)
      → get_ended_auction j (drop_all dropped s)
        ≡ (if any (λ a. j == a.id) dropped then none else get_ended_auction j s)
  unfolding drop_all
  ended-drop_all [] j s = refl
  ended-drop_all (a ∷ dropped) j s =
      ground (arith, ended-drop_all dropped j (drop_auction a s), ended-drop_auction a j s)

  -- Of the ended auctions, `EndBlocker` removes exactly those that are stale: the end is before the
  -- cutoff, which is the height less the maximal age modulo 2 ^ 64, and a later one of the denom is
  -- kept. A lookup finds what it found before, unless a stale auction has that id. A maximal age of 0 keeps
  -- all. Below the maximal age the cutoff wraps around, so that auctions that have just ended are stale as
  -- well.
  pub prune_ended_exact :
      (height : ℕ) (s : Auctions sdk.Decimal) (i : ℕ)
      → get_ended_auction i (prune_ended height s) ≡ (
          if not (s.params.auction_max_block_age == 0)
            && any
                (λ a. i == a.id)
                (stale
                  (sub_u64 height s.params.auction_max_block_age)
                  []
                  (reverse (get_ended_auctions s)))
          then none
          else get_ended_auction i s)
  unfolding prune_ended
  prune_ended_exact height s i =
      let age = s.params.auction_max_block_age in
      let ended = reverse (get_ended_auctions s) in
      ground (
        arith,
        prune-eq-drop_all height age [] ended s,
        ended-drop_all (stale (sub_u64 height age) [] ended) i s,
      )
