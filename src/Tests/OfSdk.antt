-- ===== src/Tests/OfSdk.antt =====
-- The SDK's theorems at concrete inputs.

use wispers_access.Prelude.{
  Text, [], byte_len, codes, false, none, refl, some, text_eq, ◌++◌, ◌∷◌, ◌≡◌,
}
use wispers_access.Sdk.Pairing.{consume_token, mint, token_calls}
use wispers_access.Sdk.Pairing.OneTime.{consume_token_once, mints_other}
use wispers_access.Sdk.Proxy.{app_route, is_ascii_digit, is_dns_label, is_label_char, parse_host}
use wispers_access.Sdk.Proxy.Hosts.{app_host, parse_host-app_host}

consume_token_once_example :
    (consume_token (codes "t") 9 (
      token_calls
        (mint (codes "uu") 8 none ∷ [])
        (consume_token (codes "t") 7 ((codes "t", some 20) ∷ [])).1)).0
    ≡ false
unfolding mints_other text_eq
consume_token_once_example =
    consume_token_once (codes "t") 7 9 ((codes "t", some 20) ∷ []) (mint (codes "uu") 8 none ∷ [])
      refl

parse_host-app_host_example :
    parse_host (app_host (codes "jelly") (codes "home") ++ (b':' ∷ codes "80"))
    ≡ some (app_route (codes "home") (codes "jelly"))
unfolding is_dns_label byte_len is_label_char is_ascii_digit
parse_host-app_host_example =
    parse_host-app_host (codes "jelly") (codes "home") (codes "80") refl refl refl

abbrev link : Text
link = codes "share=s&app=a&token=t"

abbrev place : Text
place = codes "http://a.s.wa.localhost:80/"

abbrev own : Text
own = codes "wa.localhost:80"
