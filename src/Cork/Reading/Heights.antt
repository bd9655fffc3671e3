-- ===== src/Cork/Reading/Heights.antt =====
-- The heights that `GetScheduledBlockHeights` of x/cork lists.
use sommelier.Base.{ℕ, ◌≤◌, ◌≡◌, true, ◌&&◌, [], ◌∷◌, ltb, arith}
use sommelier.Base.Table.{Table, Entries}
use sommelier.Base.Table.Ordered.{Ordered}
use sommelier.Base.Rising.{Rising, Climbing, is_among, new_heights-Climbing, is_among-new_heights}
use sommelier.Cork.Types.{ScheduledKey, Bridge, Cork, Corks}
use sommelier.Cork.Reading.{heights_of, get_scheduled_block_heights}

module _ {Decimal : Type 0} (b : Bridge Decimal)
    (heights_first : (k j : ScheduledKey b.Address)
      → b.scheduled_key.before k j ≡ true
      → k.0 ≤ j.0) where
  Rising-heights :
      (low : ℕ) (t : Table (ScheduledKey b.Address) Cork)
      → Entries ⦃key = b.scheduled_key⦄ (λ k _. low ≤ k.0) t
      → Ordered ⦃key = b.scheduled_key⦄ t
      → Rising low (heights_of t)
  Rising-heights low [] h o = tt
  Rising-heights low ((k, c) ∷ t) h o = (h.0, Rising-heights k.0 t (later t o.0) o.1)
    where
      later :
          (u : Table (ScheduledKey b.Address) Cork)
          → Entries ⦃key = b.scheduled_key⦄ (λ j _. b.scheduled_key.before k j ≡ true) u
          → Entries ⦃key = b.scheduled_key⦄ (λ j _. k.0 ≤ j.0) u
      later [] g = tt
      later ((j, d) ∷ u) g = (heights_first k j g.0, later u g.1)

  from_zero :
      (t : Table (ScheduledKey b.Address) Cork) → Entries ⦃key = b.scheduled_key⦄ (λ k _. 0 ≤ k.0) t
  from_zero [] = tt
  from_zero ((k, c) ∷ t) = (omega arith, from_zero t)

  -- If the store's keys ascend, and by their heights first, the list ascends without repetition, and
  -- a height is on it exactly if it is not 0 and a cork is scheduled for it.
  pub get_scheduled_block_heights-lists :
      (s : Corks b.Address)
      → Ordered ⦃key = b.scheduled_key⦄ s.scheduled
      → Climbing 0 (get_scheduled_block_heights s)
        × ((n : ℕ)
            → is_among n (get_scheduled_block_heights s)
              ≡ (is_among n (heights_of s.scheduled) && ltb 0 n))
  unfolding get_scheduled_block_heights
  get_scheduled_block_heights-lists s o =
      let rising = Rising-heights 0 s.scheduled (from_zero s.scheduled) o in
      (
        new_heights-Climbing 0 (heights_of s.scheduled) rising,
        λ n. is_among-new_heights 0 n (heights_of s.scheduled) rising,
      )
