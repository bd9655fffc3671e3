-- ===== src/PubSub/Tests/Loading.antt =====
-- Loading a genesis of x/pubsub: a publisher, an offer to a list, and a subscriber on the list.
use sommelier.Base.{◌≡◌, refl, [], ◌∷◌}
use sommelier.Base.Exec.{ok}
use sommelier.PubSub.Linked.{IsLinked}
use sommelier.PubSub.Genesis.{GenesisState, init_genesis}
use sommelier.PubSub.Genesis.Signing.{bare}
use sommelier.PubSub.Genesis.Linking.{Links, loaded, init_genesis-IsLinked}
use sommelier.PubSub.Tests.{accounts, offer, wanted}

abbrev genesis : GenesisState
genesis = record {
  publishers = record { address = "bob"; ca_cert = "pem"; domain = "strategist.org" } ∷ [];
  subscribers = record { address = "alice"; ca_cert = ""; push_url = "" } ∷ [];
  publisher_intents = offer ∷ record offer { subscription_id = "2:cellar" } ∷ [];
  subscriber_intents = wanted ∷ record wanted { subscription_id = "2:cellar" } ∷ [];
  default_subscriptions =
      record { subscription_id = "1:cellar"; publisher_domain = "strategist.org" } ∷ [];
}

genesis-Links : Links accounts genesis
genesis-Links = record {
  addresses = (refl, tt);
  intent_addresses = (refl, (refl, tt));
  publishers = (refl, (refl, tt));
  offers_apart = (refl, (refl, tt));
  subscribers = (refl, (refl, tt));
  served = (refl, (refl, tt));
  intents_apart = (refl, (refl, tt));
}

init_genesis-IsLinked_example :
    (init_genesis accounts genesis (bare accounts) ≡ (ok tt, loaded accounts genesis))
    × IsLinked accounts (loaded accounts genesis)
init_genesis-IsLinked_example = init_genesis-IsLinked accounts genesis genesis-Links
