-- ===== src/PubSub/Genesis/Loops.antt =====
-- The loops of `InitGenesis` of x/pubsub, and what they leave.
use text.Mathlib.TextEquality.{eq_iff}
use sommelier.Base.{
  ◌≡◌, refl, String, Bool, true, false, ◌&&◌, none, some, List, [], ◌∷◌, any, All, arith, ◌==◌,
  string_eq, Bool-cases, inl, inr,
}
use sommelier.Base.Exec.{Exec, ok, for_each}
use sommelier.Base.Table.{get-set}
use sommelier.Base.Table.Prefix.{is_some}
use sommelier.PubSub.Types.{Accounts, PublisherIntent, SubscriberIntent, address_of}
use sommelier.PubSub.Store.{
  State, domain_id, address_id, get_publisher, get_subscriber, set_publisher_intent,
  set_subscriber_intent,
}
use sommelier.PubSub.Removal.{intent_at, sub_intent_at}
use sommelier.PubSub.Linked.{serves, IsLinked}
use sommelier.PubSub.Linked.Sets.{set_publisher_intent-IsLinked, set_subscriber_intent-IsLinked}

-- A loop of writes.
module _ {A S : Type 0} (write : A → S → S) where
  unfoldable pub put : List A → S → S
  put [] s = s
  put (x ∷ xs) s = put xs (write x s)

  pub for_each-put :
      {C : Type 0} (body : A → Exec S C (Unit {0})) (xs : List A) (s : S)
      → All (λ x. (t : S) → body x t ≡ (ok tt, write x t)) xs
      → for_each body xs s ≡ (ok tt, put xs s)
  unfolding for_each put
  for_each-put body [] s h = refl
  for_each-put body (x ∷ xs) s h = ground (arith, h.0 s, for_each-put body xs (write x s) h.1)

  pub put-Keeps :
      (P : S → Type 0)
      → ((x : A) (s : S) → P s → P (write x s))
      → (xs : List A) (s : S) → P s
      → P (put xs s)
  unfolding put
  put-Keeps P step [] s h = h
  put-Keeps P step (x ∷ xs) s h = put-Keeps P step xs (write x s) (step x s h)

-- No entry of a list is the same as a later one.
abbrev pub Apart : {A : Type 0} → (A → A → Bool) → List A → Type 0
Apart same [] = Unit
Apart same (x ∷ xs) = (any (same x) xs ≡ false) × Apart same xs

abbrev pub same_offer : PublisherIntent → PublisherIntent → Bool
same_offer i j = j.publisher_domain == i.publisher_domain && j.subscription_id == i.subscription_id

module _ (accounts : Accounts) where
  abbrev pub same_intent : SubscriberIntent → SubscriberIntent → Bool
  same_intent i j =
      accounts.address_eq.beq (address_of accounts j) (address_of accounts i)
      && j.subscription_id == i.subscription_id

  -- The loops of `InitGenesis` over the intents.
  abbrev pub put_offers : List PublisherIntent → State accounts → State accounts
  put_offers = put (set_publisher_intent accounts)

  abbrev pub put_intents : List SubscriberIntent → State accounts → State accounts
  put_intents = put (λ i. set_subscriber_intent accounts (address_of accounts i) i)

  abbrev pub IsFresh : State accounts → PublisherIntent → Type 0
  IsFresh s i = intent_at accounts i.publisher_domain i.subscription_id s ≡ none

  IsFresh-later :
      (i : PublisherIntent) (l : List PublisherIntent) (s : State accounts)
      → any (same_offer i) l ≡ false
      → All (IsFresh s) l
      → All (IsFresh (set_publisher_intent accounts i s)) l
  IsFresh-later i [] s a f = tt
  IsFresh-later i (j ∷ l) s a f = (
    ground (
      arith,
      a,
      f.0,
      get-set ⦃key = domain_id accounts⦄ (i.publisher_domain, i.subscription_id)
          (j.publisher_domain, j.subscription_id) i s.publisher_intents,
    ),
    IsFresh-later i l s (ground (arith, a)) f.1,
  )

  pub put_offers-IsLinked :
      (l : List PublisherIntent) (s : State accounts)
      → IsLinked accounts s
      → All (λ i. is_some (get_publisher accounts i.publisher_domain s) ≡ true) l
      → All (IsFresh s) l
      → Apart same_offer l
      → IsLinked accounts (put_offers l s)
  unfolding put
  put_offers-IsLinked [] s h k f a = h
  put_offers-IsLinked (i ∷ l) s h k f a =
      put_offers-IsLinked l (set_publisher_intent accounts i s)
        (set_publisher_intent-IsLinked accounts s h i k.0 f.0) k.1 (IsFresh-later i l s a.0 f.1) a.1

  intent_at-put_offers :
      (d u : String) (l : List PublisherIntent) (s : State accounts)
      → any (λ j. j.publisher_domain == d && j.subscription_id == u) l ≡ false
      → intent_at accounts d u (put_offers l s) ≡ intent_at accounts d u s
  unfolding put
  intent_at-put_offers d u [] s a = refl
  intent_at-put_offers d u (j ∷ l) s a = ground (
    arith,
    a,
    intent_at-put_offers d u l (set_publisher_intent accounts j s),
    eq_iff d j.publisher_domain,
    eq_iff j.publisher_domain d,
    eq_iff u j.subscription_id,
    eq_iff j.subscription_id u,
    get-set ⦃key = domain_id accounts⦄ (j.publisher_domain, j.subscription_id) (d, u) j
        s.publisher_intents,
  )

  -- The offer that an intent stands on stays in the store.
  pub put_offers_serve :
      (i : SubscriberIntent) (l : List PublisherIntent) (s : State accounts)
      → Apart same_offer l
      → any
          (λ p.
            p.publisher_domain == i.publisher_domain
            && p.subscription_id == i.subscription_id
            && serves (some p) i)
          l
        ≡ true
      → serves (intent_at accounts i.publisher_domain i.subscription_id (put_offers l s)) i ≡ true
  unfolding put
  put_offers_serve i [] s a e = absurd (cc)
  put_offers_serve i (p ∷ l) s a e =
      elim (Bool-cases (
        p.publisher_domain == i.publisher_domain
        && p.subscription_id == i.subscription_id
        && serves (some p) i)) [
          | inr q ↦
              put_offers_serve i l (set_publisher_intent accounts p s) a.1 (ground (arith, q, e))
          | inl q ↦
              let same_d : p.publisher_domain ≡ i.publisher_domain =
                ground (arith, q, eq_iff p.publisher_domain i.publisher_domain) in
              let same_u : p.subscription_id ≡ i.subscription_id =
                ground (arith, q, eq_iff p.subscription_id i.subscription_id) in
              let kept =
                intent_at-put_offers p.publisher_domain p.subscription_id l
                  (set_publisher_intent accounts p s) a.0 in
              let written =
                get-set ⦃key = domain_id accounts⦄ (p.publisher_domain, p.subscription_id)
                  (p.publisher_domain, p.subscription_id) p s.publisher_intents in
              rw (← same_d, ← same_u)
                (ground (
                  arith,
                  q,
                  kept,
                  written,
                  eq_iff p.publisher_domain p.publisher_domain,
                  eq_iff p.subscription_id p.subscription_id,
                ))
        ]

  abbrev pub IsNew : State accounts → SubscriberIntent → Type 0
  IsNew s i = sub_intent_at accounts (address_of accounts i) i.subscription_id s ≡ none

  IsNew-later :
      (i : SubscriberIntent) (l : List SubscriberIntent) (s : State accounts)
      → any (same_intent i) l ≡ false
      → All (IsNew s) l
      → All (IsNew (set_subscriber_intent accounts (address_of accounts i) i s)) l
  IsNew-later i [] s a f = tt
  IsNew-later i (j ∷ l) s a f = (
    ground (
      arith,
      a,
      f.0,
      get-set ⦃key = address_id accounts⦄ (address_of accounts i, i.subscription_id)
          (address_of accounts j, j.subscription_id) i s.subscriber_intents,
    ),
    IsNew-later i l s (ground (arith, a)) f.1,
  )

  pub put_intents-IsLinked :
      (l : List SubscriberIntent) (s : State accounts)
      → IsLinked accounts s
      → All (λ i. is_some (get_subscriber accounts (address_of accounts i) s) ≡ true) l
      → All (λ i. serves (intent_at accounts i.publisher_domain i.subscription_id s) i ≡ true) l
      → All (IsNew s) l
      → Apart same_intent l
      → IsLinked accounts (put_intents l s)
  unfolding put
  put_intents-IsLinked [] s h k o f a = h
  put_intents-IsLinked (i ∷ l) s h k o f a =
      put_intents-IsLinked l (set_subscriber_intent accounts (address_of accounts i) i s)
        (set_subscriber_intent-IsLinked accounts s h i k.0 f.0 o.0) k.1 o.1
        (IsNew-later i l s a.0 f.1) a.1
