-- ===== src/Sdk/Proxy.antt =====
-- sdk/src/reverse_proxy.rs, lines 357 to 383, 401 to 413 and 449 to 482: the pairing page and the
-- hosts of the proxy on the loopback. Whether the request presents the cookie is given.
pub mod Hosts
pub mod Pairs
use wispers_access.Host.Config.Names.{is_blank, rsplit_once}
use wispers_access.Prelude.{
  Bool, List, Option, Text, [], all, byte_len, codes, drop, false, if◌then◌else◌, is_some, leb,
  length, none, not, some, split, strip_prefix, take, text_eq, true, ℕ, ◌&&◌, ◌++◌, ◌-◌, ◌/◌, ◌==◌,
  ◌||◌, ◌∷◌,
}
use wispers_access.Sdk.Pairing.{Tokens, consume_token}

abbrev pub proxy_domain : Text
proxy_domain = codes "wa.localhost"

-- `str::strip_suffix`.
unfoldable pub strip_suffix : Text → Text → Option Text
strip_suffix suffix s =
    let n = length s - length suffix in
    if leb (length suffix) (length s) && text_eq (drop n s) suffix then some (take n s) else none

unfoldable pub is_ascii_digit : ℕ → Bool
is_ascii_digit c = leb 48 c && leb c 57

unfoldable pub is_label_char : ℕ → Bool
is_label_char c =
    leb 48 c && leb c 57 || (leb 65 c && leb c 90 || (leb 97 c && leb c 122 || c == b'-'))

unfoldable pub is_dns_label : Text → Bool
unfolding byte_len is_label_char
is_dns_label s = not (is_blank s) && (leb (byte_len s) 63 && all is_label_char s)

pub data Route : Type 0 where
  app_route : (share app : Text) → Route
  proxy_route : Route

-- The host without its port.
unfoldable pub without_port : Text → Option (Text × Text) → Text
unfolding is_ascii_digit
without_port host none = host
without_port host (some (h, port)) = if all is_ascii_digit port then h else host

unfoldable pub strip_dot : Option Text → Option Text
unfolding strip_suffix
strip_dot none = none
strip_dot (some prefix) = strip_suffix (codes ".") prefix

unfoldable pub labels_route : List Text → Option Route
labels_route [] = none
labels_route (app ∷ []) = none
labels_route (app ∷ share ∷ []) =
    if not (is_blank app) && not (is_blank share) then some (app_route share app) else none
labels_route (app ∷ share ∷ more ∷ rest) = none

unfoldable pub prefix_route : Option Text → Option Route
unfolding labels_route
prefix_route none = none
prefix_route (some prefix) = labels_route (split b'.' prefix)

-- `parse_host`, none for its error.
unfoldable pub parse_host : Text → Option Route
unfolding without_port prefix_route strip_dot strip_suffix rsplit_once
parse_host host =
    let h = without_port host (rsplit_once b':' host) in
    if text_eq h proxy_domain
    then some proxy_route
    else prefix_route (strip_dot (strip_suffix proxy_domain h))

-- The pairs that `parse_query` collects: the last of a name counts.
split_once : ℕ → Text → Option (Text × Text)
split_once sep [] = none
split_once sep (c ∷ s) =
    let rest = split_once sep s in
    if c == sep then some ([], s) else elim rest [ none ↦ none | some r ↦ some (c ∷ r.0, r.1) ]

collect : List Text → List (Text × Text)
unfolding split_once
collect [] = []
collect (pair ∷ pairs) =
    let rest = collect pairs in elim (split_once b'=' pair) [ none ↦ rest | some p ↦ p ∷ rest ]

last_value : Text → List (Text × Text) → Option Text
last_value name [] = none
last_value name (p ∷ ps) = elim (last_value name ps) [
  | some v ↦ some v
  | none ↦ if text_eq p.0 name then some p.1 else none
]

unfoldable pub query_value : Text → Text → Option Text
unfolding collect last_value
query_value query name = last_value name (collect (split b'&' query))

pub data PairAnswer : Type 0 where
  bad_request not_paired : PairAnswer
  redirect : (location : Text) (sets_cookie : Bool) → PairAnswer

unfoldable pub pair_location : Text → Text → Text → Text → Text
pair_location app share host path =
    codes "http://" ++ (app ++ (b'.' ∷ (share ++ (b'.' ∷ (host ++ path)))))

-- A token that the query names is consumed only without the cookie.
unfoldable pub redeem_token : Text → Option Text → ℕ → Tokens → PairAnswer × Tokens
unfolding consume_token
redeem_token location none now tokens = (not_paired, tokens)
redeem_token location (some token) now tokens =
    let r = consume_token token now tokens in
    ((if r.0 then redirect location true else not_paired), r.1)

unfoldable pub path_or_root : Option Text → Text
path_or_root none = codes "/"
path_or_root (some path) = path

unfoldable pub answer_browser : Text → Text → Bool → ℕ → Tokens → PairAnswer × Tokens
unfolding redeem_token query_value
answer_browser query location true now tokens = (redirect location false, tokens)
answer_browser query location false now tokens =
    redeem_token location (query_value query (codes "token")) now tokens

unfoldable pub answer_labels : Text → Text → Bool → ℕ → Text → Text → Tokens → PairAnswer × Tokens
unfolding is_dns_label strip_prefix pair_location answer_browser path_or_root query_value
answer_labels query host presented now share app tokens =
    let path = path_or_root (query_value query (codes "path")) in
    if not (is_dns_label share) || not (is_dns_label app)
    then (bad_request, tokens)
    else if not (is_some (strip_prefix (codes "/") path))
    then (bad_request, tokens)
    else answer_browser query (pair_location app share host path) presented now tokens

unfoldable pub answer_params :
    Text → Text → Bool → ℕ → Option Text → Option Text → Tokens → PairAnswer × Tokens
unfolding answer_labels
answer_params query host presented now (some share) (some app) tokens =
    answer_labels query host presented now share app tokens
answer_params query host presented now (some share) none tokens = (bad_request, tokens)
answer_params query host presented now none o tokens = (bad_request, tokens)

unfoldable pub answer_pair : Text → Text → Bool → ℕ → Tokens → PairAnswer × Tokens
unfolding answer_params query_value
answer_pair query host presented now tokens =
    answer_params query host presented now (query_value query (codes "share"))
      (query_value query (codes "app")) tokens
