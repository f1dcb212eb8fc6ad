-- ===== src/Wire/Origin.antt =====
-- wire/src/lib.rs, lines 642 to 727: web origins. The crate `url` is a parameter: a parsed URL is
-- the record of what the program asks of it, and parsing is a function to it.
use wispers_access.Prelude.{◌||◌, refl, text_eq_refl}
use wispers_access.Prelude.{
  Bool, Option, Result, Text, [], arith, codes, err, false, if◌then◌else◌, none, not, ok, ok_or,
  some, text_eq, trim, true, ℕ, ◌&&◌, ◌++◌, ◌==◌, ◌>>=◌, ◌↔◌, ◌≡◌,
}

pub record Url : Type 0 where
  pub scheme : Text
  pub host_str : Option Text
  -- `port_or_known_default`; the source calls `expect` on it for http and https.
  pub known_port : ℕ
  pub username : Text
  pub password : Option Text
  pub path : Text
  pub query : Option Text
  pub fragment : Option Text
  -- `to_string`
  pub rendered : Text

pub record Origin : Type 0 where
  pub https : Bool
  pub host : Text
  pub port : ℕ

pub data OriginError : Type 0 where
  bad_scheme missing_host not_a_url user_info path_or_query : OriginError

unfoldable pub is_loopback : Origin → Bool
unfolding text_eq
is_loopback o =
    text_eq o.host (codes "localhost")
    || (text_eq o.host (codes "127.0.0.1") || text_eq o.host (codes "[::1]"))

unfoldable pub default_port : Origin → ℕ
default_port o = if o.https then 443 else 80

abbrev bool_eq : Bool → Bool → Bool
bool_eq true b = b
bool_eq false b = not b

unfoldable pub origin_eq : Origin → Origin → Bool
origin_eq o p = bool_eq o.https p.https && (text_eq o.host p.host && o.port == p.port)

of_scheme : Option Bool → Url → Result OriginError Origin
of_scheme none url = err bad_scheme
of_scheme (some https) url = ok_or url.host_str missing_host >>= λ host.
    ok (record { https = https; host = host; port = url.known_port })

read_scheme : Text → Option Bool
unfolding text_eq
read_scheme s =
    if text_eq s (codes "http")
    then some false
    else if text_eq s (codes "https")
    then some true
    else none

-- `Origin::of`.
unfoldable pub origin_of : Url → Result OriginError Origin
unfolding of_scheme read_scheme
origin_of url = of_scheme (read_scheme url.scheme) url

is_none : {A : Type 0} → Option A → Bool
is_none none = true
is_none (some a) = false

-- The condition under which `from_str` accepts a parsed URL, by its two tests.
bare_origin : Url → Result OriginError Origin
unfolding is_none text_eq
bare_origin url =
    if not (text_eq url.username []) || not (is_none url.password)
    then err user_info
    else if not (text_eq url.path (codes "/"))
        || (not (is_none url.query) || not (is_none url.fragment))
    then err path_or_query
    else origin_of url

-- `FromStr for Origin`.
unfoldable pub parse_origin : (Text → Option Url) → Text → Result OriginError Origin
unfolding bare_origin
parse_origin url_parse s = ok_or (url_parse (trim s)) not_a_url >>= bare_origin

-- `Display`, with the decimal digits of a port as `decimal`.
unfoldable pub display : (ℕ → Text) → Origin → Text
display decimal o =
    (if o.https then codes "https" else codes "http")
    ++ (codes "://"
        ++ (o.host ++ (if o.port == default_port o then [] else codes ":" ++ decimal o.port)))

bool_eq_iff : (a b : Bool) → (bool_eq a b ≡ true) ↔ (a ≡ b)
bool_eq_iff true true = ground arith
bool_eq_iff true false = ground arith
bool_eq_iff false true = ground arith
bool_eq_iff false false = ground arith

pub origin_eq_refl : (o : Origin) → origin_eq o o ≡ true
unfolding origin_eq
origin_eq_refl o = ground (arith, text_eq_refl o.host, (bool_eq_iff o.https o.https).1 refl)
