-- ===== src/Host/GuestApi.antt =====
-- waserver/src/guest_api.rs, lines 47 to 258: the API on CTRL streams, one request and one
-- response. The body's JSON, versions and the clock are parameters; a response's body is the
-- value that is serialised.
pub mod Writes
pub mod Leave
use wispers_access.Host.Config.Hash.{config_hash}
use wispers_access.Prelude.Decimals.{decimal}
use wispers_access.Host.Config.Types.{
  AppConfig, ShareConfig, forward_proxy_to, reverse_proxy_to, wire_mode,
}
use wispers_access.Host.Store.Calls.{
  GuestNode, Redemption, activated, guest_by_peer, redeem_invite, refused, remove_guest,
}
use wispers_access.Host.Store.Db.{Error, External, M, Time, pure}
use wispers_access.Prelude.{
  Bool, List, Option, Result, Text, [], codes, err, false, if◌then◌else◌, is_some, is_whitespace,
  leb, length, map, none, not, ok, some, strip_prefix, text_eq, trim_start, ℕ, ◌/◌, ◌||◌, ◌∷◌,
}
use wispers_access.Wire.Activation.{status, ActivationError, as_str, malformed}
use wispers_access.Wire.ConfigHash.{etag, matches_if_none_match}
use wispers_access.Wire.Origin.{display}
use wispers_access.Wire.Share.{ShareInfo, SharedApp}

pub data Method : Type 0 where
  get_method post_method delete_method other_method : Method

pub record Request : Type 0 where
  pub method : Method
  pub path : Text
  -- Header values that `to_str` reads.
  pub user_agent : Option Text
  pub if_none_match : Option Text
  -- The body, none when reading it fails.
  pub body : Option (List ℕ)

pub data Body : Type 0 where
  no_body events : Body
  share : ShareInfo → Body
  api_error : Text → Body

pub record Response : Type 0 where
  pub status : ℕ
  pub etag : Option Text
  pub body : Body

-- `protocol::Peer` and what the handlers use of `protocol::StreamContext`.
pub record Peer : Type 0 where
  pub peer_id : Text
  pub user_id : Option Text

pub record StreamContext : Type 0 where
  pub config : ShareConfig
  pub transport : Text

unfoldable pub is_authorized : Peer → Bool
is_authorized peer = is_some peer.user_id

-- What the API uses of `serde_json` and `semver`: the secret of an `Activation`, and whether the
-- version that a text states, or 0.0.0, is below `MIN_CLIENT_VERSION`.
pub record Formats : Type 0 where
  pub read_activation : List ℕ → Option Text
  pub below_minimum : Option Text → Bool

unfoldable pub first_word : Text → Text
first_word [] = []
first_word (c ∷ s) = let rest = first_word s in if is_whitespace c then [] else c ∷ rest

version_part : Option Text → Option Text
unfolding strip_prefix
version_part none = none
version_part (some s) = strip_prefix (codes "/") s

-- `wire::client_version`, up to reading the version.
unfoldable pub client_version : Option Text → Option Text
unfolding first_word version_part trim_start
client_version none = none
client_version (some user_agent) =
    version_part (strip_prefix (codes "wispers-access-sdk") (first_word (trim_start user_agent)))

unfoldable pub error : ℕ → Text → Response
error status code = record { status = status; etag = none; body = api_error code }

shared_app : AppConfig → SharedApp
unfolding display wire_mode
shared_app s = record {
  id = s.id;
  name = s.name;
  kind = s.kind;
  mode = wire_mode s.mode;
  start_url = elim s.mode [
    | reverse_proxy_to _ ↦ none
    | forward_proxy_to start_url _ ↦ some start_url
  ];
  proxied_origins = elim s.mode [
    | reverse_proxy_to _ ↦ []
    | forward_proxy_to _ origins ↦ map (display decimal) origins
  ];
}

unfoldable pub share_info : ShareConfig → Text → ShareInfo
unfolding shared_app config_hash
share_info config transport = record {
  config_hash = config_hash config;
  name = config.name;
  transport = transport;
  apps = map shared_app config.apps;
  ca_certificates = config.ca_certificates;
}

unfoldable pub share_response : StreamContext → Response
unfolding share_info etag config_hash
share_response ctx = record {
  status = 200;
  etag = some (etag (config_hash ctx.config));
  body = share (share_info ctx.config ctx.transport);
}

unfoldable pub up_to_date : StreamContext → Option Text → Bool
unfolding matches_if_none_match config_hash
up_to_date ctx none = false
up_to_date ctx (some v) = matches_if_none_match (config_hash ctx.config) v

unfoldable pub get_share : Request → StreamContext → Response
unfolding share_response up_to_date etag config_hash
get_share req ctx =
    if up_to_date ctx req.if_none_match
    then record { status = 304; etag = some (etag (config_hash ctx.config)); body = no_body }
    else share_response ctx

unfoldable pub refuse_activation : ActivationError → Response
unfolding error status as_str
refuse_activation why = error (status why) (as_str why)

-- A call whose error the handler answers.
abbrev pub recover : {A B : Type 0} → M A → (Result Error A → M B) → M B
recover m k d = k (m d).0 (m d).1

unfoldable pub database_error : Response
unfolding error
database_error = error 500 (codes "state database error")

unfoldable pub redeemed : StreamContext → Result Error Redemption → M Response
unfolding share_response refuse_activation database_error
redeemed ctx (ok (activated guest)) = pure (share_response ctx)
redeemed ctx (ok (refused why)) = pure (refuse_activation why)
redeemed ctx (err e) = pure database_error

module _ (x : External) (formats : Formats) where
  unfoldable pub activate : StreamContext → Text → Time → Option Text → M Response
  unfolding redeem_invite redeemed refuse_activation
  activate ctx peer_id now none = pure (refuse_activation malformed)
  activate ctx peer_id now (some secret) =
      recover (redeem_invite x secret peer_id now) (redeemed ctx)

  -- The secret of a body of at most `MAX_ACTIVATION_BODY` bytes.
  unfoldable pub activation_secret : Option (List ℕ) → Option Text
  activation_secret none = none
  activation_secret (some body) =
      if leb (length body) 1024 then formats.read_activation body else none

  unfoldable pub post_activation : Request → StreamContext → Text → Time → M Response
  unfolding activate activation_secret
  post_activation req ctx peer_id now = activate ctx peer_id now (activation_secret req.body)

unfoldable pub guest_removed : Result Error (Unit {0}) → M Response
unfolding database_error
guest_removed (err e) = pure database_error
guest_removed (ok u) = pure (record { status = 204; etag = none; body = no_body })

unfoldable pub delete_found : Result Error (Option GuestNode) → M Response
unfolding guest_removed remove_guest database_error error
delete_found (err e) = pure database_error
delete_found (ok none) = pure (error 404 (codes "no such guest"))
delete_found (ok (some guest)) = recover (remove_guest guest.number) guest_removed

unfoldable pub delete_guest : Text → M Response
unfolding guest_by_peer delete_found
delete_guest peer_id = recover (guest_by_peer peer_id) delete_found

abbrev pub share_path : Text
share_path = codes "/v1/share"

abbrev pub events_path : Text
events_path = codes "/v1/events"

abbrev pub activation_path : Text
activation_path = codes "/v1/activation"

abbrev pub guest_path : Text
guest_path = codes "/v1/guest"

pub data Route : Type 0 where
  share_route events_route activation_route guest_route method_not_allowed no_route : Route

at_share : Method → Route
at_share get_method = share_route
at_share post_method = method_not_allowed
at_share delete_method = method_not_allowed
at_share other_method = method_not_allowed

at_events : Method → Route
at_events get_method = events_route
at_events post_method = method_not_allowed
at_events delete_method = method_not_allowed
at_events other_method = method_not_allowed

at_activation : Method → Route
at_activation get_method = method_not_allowed
at_activation post_method = activation_route
at_activation delete_method = method_not_allowed
at_activation other_method = method_not_allowed

at_guest : Method → Route
at_guest get_method = method_not_allowed
at_guest post_method = method_not_allowed
at_guest delete_method = guest_route
at_guest other_method = method_not_allowed

-- The `match` on method and path.
unfoldable pub find_route : Method → Text → Route
unfolding text_eq at_share at_events at_activation at_guest
find_route method path =
    if text_eq path share_path
    then at_share method
    else if text_eq path events_path
    then at_events method
    else if text_eq path activation_path
    then at_activation method
    else if text_eq path guest_path
    then at_guest method
    else no_route

module _ (x : External) (formats : Formats) where
  unfoldable pub respond : Request → StreamContext → Peer → Time → Route → M Response
  unfolding get_share post_activation delete_guest error
  respond req ctx peer now share_route = pure (get_share req ctx)
  respond req ctx peer now events_route = pure (record { status = 200; etag = none; body = events })
  respond req ctx peer now activation_route = post_activation x formats req ctx peer.peer_id now
  respond req ctx peer now guest_route = delete_guest peer.peer_id
  respond req ctx peer now method_not_allowed = pure (error 405 (codes "method not allowed"))
  respond req ctx peer now no_route = pure (error 404 (codes "no such route"))

  unfoldable pub route : Request → StreamContext → Peer → Time → M Response
  unfolding respond find_route client_version is_authorized error
  route req ctx peer now =
      if formats.below_minimum (client_version req.user_agent)
      then pure (error 426 (codes "client-too-old"))
      else if is_authorized peer || text_eq req.path activation_path
      then respond req ctx peer now (find_route req.method req.path)
      else pure (error 403 (codes "not-activated"))
