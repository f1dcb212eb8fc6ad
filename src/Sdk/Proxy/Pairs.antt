-- ===== src/Sdk/Proxy/Pairs.antt =====
-- Where the pairing page sends a browser, and which browsers get the cookie.

-- The location is an absolute path on the host of the app of the share that the query names.
use wispers_access.Prelude.{Bool, Text, codes, false, is_some, some, strip_prefix, true, ℕ, ◌≡◌}
use wispers_access.Sdk.Pairing.{Tokens, consume_token}
use wispers_access.Sdk.Proxy.{is_dns_label, pair_location, query_value}

pub record Sends (query host location : Text) : Type 0 where
  pub share : Text
  pub app : Text
  pub path : Text
  pub share_named : query_value query (codes "share") ≡ some share
  pub app_named : query_value query (codes "app") ≡ some app
  pub share_label : is_dns_label share ≡ true
  pub app_label : is_dns_label app ≡ true
  pub absolute : is_some (strip_prefix (codes "/") path) ≡ true
  pub location_is : location ≡ pair_location app share host path

-- The cookie is set for a token that is accepted and spent; without one the browser had it.
pub Proves : Text → Bool → ℕ → Tokens → Tokens → Bool → Type 0
Proves query presented now tokens tokens' false = (presented ≡ true) × (tokens' ≡ tokens)
Proves query presented now tokens tokens' true =
    (token : Text) × (query_value query (codes "token") ≡ some token)
    × (consume_token token now tokens ≡ (true, tokens'))
