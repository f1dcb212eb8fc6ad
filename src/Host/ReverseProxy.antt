-- ===== src/Host/ReverseProxy.antt =====
-- waserver/src/reverse_proxy.rs, lines 21 to 34, 73 to 183 and 212 to 263: what a request for an
-- app is answered with, and which headers reach the app. Header names are lowercase, as in
-- hyper. The HTTP client, the upstream and `HeaderValue::from_str` are parameters.
pub mod Identity
use mathlib.Core.Option
use wispers_access.Host.Config.Hash.{config_hash}
use wispers_access.Host.Config.Types.{eq_ignore_ascii_case}
use wispers_access.Prelude.{
  ◌||◌, all, leb, leb, all, Bool, List, Option, Text, [], any, codes, delete_where, false, find,
  if◌then◌else◌, is_some, none, not, some, split, text_eq, trim, ℕ, ◌&&◌, ◌++◌, ◌==◌, ◌∷◌,
}
use wispers_access.Wire.ConfigHash.{hex16}

abbrev pub Headers : Type 0
Headers = List (Text × Text)

abbrev pub named : Text → Text × Text → Bool
named name header = text_eq header.0 name

-- `HeaderMap::remove`, `insert`, `get` and `contains_key`.
unfoldable pub remove : Text → Headers → Headers
remove name headers = delete_where (named name) headers

unfoldable pub insert : Text → Text → Headers → Headers
unfolding remove
insert name value headers = remove name headers ++ ((name, value) ∷ [])

unfoldable pub get : Text → Headers → Option Text
get name headers = Option.map (λ (h : Text × Text). h.1) (find (named name) headers)

abbrev pub identity_header : Text
identity_header = codes "x-wispers-access-user"

unfoldable pub identity_or_none : Option Text → Headers → Headers
unfolding insert
identity_or_none (some value) headers = insert identity_header value headers
identity_or_none none headers = headers

unfoldable pub inject_identity : (Text → Option Text) → Text → Headers → Headers
unfolding remove identity_or_none
inject_identity header_value user_id headers =
    identity_or_none (header_value user_id) (remove identity_header headers)

remove_all : List Text → Headers → Headers
unfolding remove
remove_all [] headers = headers
remove_all (name ∷ names) headers = remove_all names (remove name headers)

abbrev pub always_stripped : List Text
always_stripped =
    codes "keep-alive"
    ∷ codes "proxy-authenticate"
    ∷ codes "proxy-authorization"
    ∷ codes "te"
    ∷ codes "trailers"
    ∷ []

abbrev pub upgrade_headers : List Text
upgrade_headers = codes "connection" ∷ codes "upgrade" ∷ []

unfoldable pub strip_hop_by_hop : Headers → Bool → Headers
unfolding remove_all
strip_hop_by_hop headers is_upgrade =
    let stripped = remove_all always_stripped headers in
    if is_upgrade then stripped else remove_all upgrade_headers stripped

-- `HeaderValue::to_str`, which reads visible ASCII, spaces and tabs only.
unfoldable pub to_str : Text → Option Text
to_str v = if all (λ c. leb 32 c && leb c 126 || c == 9) v then some v else none

abbrev lists : Option Text → Bool
lists none = false
lists (some v) = any (λ t. eq_ignore_ascii_case (trim t) (codes "upgrade")) (split b',' v)

unfoldable pub lists_upgrade : Option Text → Bool
unfolding to_str
lists_upgrade none = false
lists_upgrade (some v) = lists (to_str v)

unfoldable pub is_upgrade_request : Headers → Bool
unfolding get lists_upgrade
is_upgrade_request headers =
    is_some (get (codes "upgrade") headers) && lists_upgrade (get (codes "connection") headers)

-- The headers that `forward_to_upstream` sends.
unfoldable pub forwarded_headers : (Text → Option Text) → Text → Headers → Headers
unfolding inject_identity strip_hop_by_hop is_upgrade_request
forwarded_headers header_value user_id headers =
    inject_identity header_value user_id (strip_hop_by_hop headers (is_upgrade_request headers))

pub data Target : Type 0 where
  upstream : Text → Target
  unknown_app : (config_hash : ℕ) → Target
  client_too_old : Target

pub record HttpRequest : Type 0 where
  pub headers : Headers
  pub rest : Text

pub record HttpResponse : Type 0 where
  pub status : ℕ
  pub headers : Headers
  pub body : Text

error_response : ℕ → Text → HttpResponse
error_response status msg = record {
  status = status;
  headers = (codes "content-type", codes "text/plain; charset=utf-8") ∷ [];
  body = msg;
}

with_header : Text → Text → HttpResponse → HttpResponse
unfolding insert
with_header name value r = record r { headers = insert name value r.headers }

-- What comes back from the app: a 101 keeps its handshake headers.
from_upstream : Option HttpResponse → HttpResponse
unfolding strip_hop_by_hop error_response
from_upstream none = error_response 502 (codes "upstream unavailable")
from_upstream (some r) = record r {
  headers = strip_hop_by_hop r.headers (r.status == 101);
  body = if r.status == 101 then [] else r.body;
}

-- `send` is the exchange with the app at an upstream, none when it fails.
unfoldable pub handle_request :
    (Text → HttpRequest → Option HttpResponse)
    → (Text → Option Text)
    → HttpRequest
    → Target
    → Text
    → HttpResponse
unfolding forwarded_headers from_upstream error_response with_header hex16
handle_request send header_value req (upstream at) user_id =
    from_upstream
      (send at (record req { headers = forwarded_headers header_value user_id req.headers }))
handle_request send header_value req (unknown_app config_hash) user_id =
    with_header (codes "x-wispers-access-config-hash") (hex16 config_hash) (
      with_header (codes "x-wispers-access-error") (codes "app-not-found")
        (error_response 404 (codes "app not found")))
handle_request send header_value req client_too_old user_id =
    with_header (codes "x-wispers-access-error") (codes "client-too-old") (
      error_response 426 (codes "This app needs a newer version of Wispers Access. Please update."))
