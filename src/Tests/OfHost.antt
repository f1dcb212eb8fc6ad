-- ===== src/Tests/OfHost.antt =====
-- The host's theorems at concrete inputs.

use wispers_access.Host.Config.Lookup.{parse-find_app}
use wispers_access.Host.Serving.{Serving, Reloaded, reload, reload-Reloaded}
use wispers_access.Prelude.Decimals.{decimal}
use wispers_access.Host.Config.Names.{is_valid_id, parse_u16, parse_upstream, rsplit_once}
use wispers_access.Host.Config.Parse.{effective_name, parse, parse_app}
use wispers_access.Host.Config.Types.{
  AppConfig, Crates, ShareConfig, ShareFile, find_app, has_app_id, reverse_mode, reverse_proxy_to,
}
use wispers_access.Host.Config.Valid.{IsConfig, parse-IsConfig}
use wispers_access.Host.Connection.{
  here, registered, ◌▸◌, Steps, looked_up, World, accepted, identify, register_connection, resolved,
  serving,
}
use wispers_access.Host.Connection.Reachable.{IsOwn, late_revocation, Steps-IsOwn}
use wispers_access.Host.GuestApi.{
  Formats, Peer, Request, StreamContext, activation_path, delete_guest, is_authorized, no_body,
  post_method, route,
}
use wispers_access.Host.GuestApi.Leave.{delete_guest-leaves, leave_rejoin}
use wispers_access.Host.GuestApi.Writes.{Written, route-Written}
use wispers_access.Host.Protocol.{
  Incoming, app_target, browsed, handle, on_data_plane, read_stream_type,
}
use wispers_access.Host.Protocol.Guards.{Reaches, handle-Reaches}
use wispers_access.Host.ReverseProxy.{named, forwarded_headers, identity_header, upstream}
use wispers_access.Host.ReverseProxy.Identity.{forwarded_headers-identity}
use wispers_access.Host.Store.Calls.{
  activated, guest_by_peer, guest_from_row, guest_number, has_peer, new_guest, redeem_invite,
  revoke_guest,
}
use wispers_access.Host.Store.Db.{InviteRecord, Tables, with_faults}
use wispers_access.Host.Store.Integrity.{IsSound}
use wispers_access.Prelude.{
  All, [], arith, codes, false, find, none, ok, refl, select, some, text_eq, trim, true, ◌∷◌, ◌≡◌,
}
use wispers_access.Tests.Sample.{
  bound_a, bound_a-IsSound, demo, guest_a, invite, invited, peer_a, row_a, secret,
}
use wispers_access.Wire.Share.{web}
use wispers_access.Wire.Streams.{first_byte, plane}

abbrev formats : Formats
formats = record { read_activation = λ body. some body; below_minimum = λ version. false }

abbrev app : AppConfig
app = record {
  id = codes "app";
  name = codes "app";
  kind = web;
  mode = reverse_proxy_to (codes "localhost:3000");
}

abbrev config : ShareConfig
config = record {
  name = codes "Family";
  apps = app ∷ [];
  ca_certificates = [];
  legacy_transport = none;
}

abbrev ctx : StreamContext
ctx = record { config = config; transport = codes "iroh" }

abbrev activation : Request
activation = record {
  method = post_method;
  path = activation_path;
  user_agent = none;
  if_none_match = none;
  body = some secret;
}

abbrev stranger : Peer
stranger = record { peer_id = peer_a; user_id = none }

abbrev guest : Peer
guest = record { peer_id = peer_a; user_id = some (codes "u") }

route-Written_example :
    Written demo formats activation ctx stranger 5_000_000_000
      (with_faults [] invited)
      (route demo formats activation ctx stranger 5_000_000_000 (with_faults [] invited))
route-Written_example =
    route-Written demo formats activation ctx stranger 5_000_000_000 (with_faults [] invited)

abbrev browsing : Incoming
browsing = record {
  first = some (some 0);
  app_id = some (codes "app");
  target = none;
  request = none;
}

handle-Reaches_example :
    Reaches (λ t. true) ctx guest (browsed (upstream (codes "localhost:3000")) (codes "u"))
unfolding handle read_stream_type first_byte on_data_plane plane is_authorized app_target find_app
    has_app_id text_eq
handle-Reaches_example =
    handle-Reaches demo formats (λ t. true) browsing ctx guest 0 (with_faults [] invited)
      (browsed (upstream (codes "localhost:3000")) (codes "u")) refl

abbrev file : ShareFile
file = record {
  name = codes "Family";
  apps =
      record {
        id = codes "app";
        name = [];
        kind = web;
        mode = reverse_mode;
        upstream = some (codes ":3000");
        start_url = none;
        proxied_origins = none;
      }
      ∷ [];
  ca_certificates = [];
  legacy_transport = none;
}

abbrev crates : Crates
crates = record {
  toml_parse = λ s. some file;
  url_parse = λ s. none;
  pem_sections = λ s. none;
  is_x509 = λ s. false;
  base64 = λ s. s;
}

parse-IsConfig_example : IsConfig crates config
unfolding parse parse_app is_valid_id parse_upstream decimal rsplit_once parse_u16 trim
    effective_name text_eq
parse-IsConfig_example = parse-IsConfig crates [] config refl

forwarded_headers-identity_example :
    select (named identity_header) (
      forwarded_headers some
        (codes "u")
        ((identity_header, codes "root") ∷ (codes "te", codes "x") ∷ []))
    ≡ (identity_header, codes "u") ∷ []
forwarded_headers-identity_example =
    forwarded_headers-identity some (codes "u")
      ((identity_header, codes "root") ∷ (codes "te", codes "x") ∷ [])

delete_guest-leaves_example :
    ((delete_guest peer_a (with_faults [] (bound_a (some 7)))).0
      ≡ ok (record { status = 204; etag = none; body = no_body }))
    × IsSound (delete_guest peer_a (with_faults [] (bound_a (some 7)))).1.tables
    × (find
          (has_peer peer_a)
          (delete_guest peer_a (with_faults [] (bound_a (some 7)))).1.tables.guests
        ≡ none)
    × ((delete_guest peer_a (with_faults [] (bound_a (some 7)))).1.tables.invites
        ≡ (bound_a (some 7)).invites)
unfolding text_eq
delete_guest-leaves_example =
    delete_guest-leaves peer_a (bound_a (some 7)) (row_a (some 7)) (bound_a-IsSound (some 7)) refl

abbrev left : Tables
left = (delete_guest peer_a (with_faults [] (bound_a (some 7)))).1.tables

abbrev second_invite : InviteRecord
second_invite = record invite { id = 2; secret_hash = codes "ttt" }

leave_rejoin_example :
    (redeem_invite demo (codes "ttt") peer_a 9_000_000_000 (with_faults [] left)).0
    ≡ ok (activated (guest_from_row (new_guest (guest_number demo left) peer_a second_invite 9)))
unfolding text_eq
leave_rejoin_example =
    leave_rejoin demo peer_a (codes "ttt") 9_000_000_000 (bound_a (some 7)) (row_a (some 7))
      second_invite (bound_a-IsSound (some 7)) refl refl refl (omega arith)

abbrev fresh_world : World
fresh_world = record {
  tables = bound_a none;
  connections = [];
  next_connection_id = 0;
  phase = accepted;
}

abbrev resolved_world : World
resolved_world = record fresh_world { phase = resolved guest_a }

abbrev served_world : World
served_world = record (register_connection 1 (codes "u") resolved_world) {
  phase = serving 0 guest_a;
}

Steps-IsOwn_example : IsOwn peer_a (serving 0 guest_a)
unfolding identify guest_by_peer guest_from_row text_eq register_connection IsOwn
Steps-IsOwn_example =
    Steps-IsOwn demo formats (λ t. true) peer_a fresh_world served_world
      (looked_up fresh_world [] refl ▸ (registered resolved_world guest_a refl ▸ here served_world))
      tt

late_revocation_example :
    (v : World) × Steps demo formats (λ t. true) peer_a resolved_world v
    × (v.phase ≡ serving 0 guest_a)
    × (v.tables ≡ (revoke_guest 1 7_000_000_000 (with_faults [] (bound_a none))).1.tables)
late_revocation_example =
    late_revocation demo formats (λ t. true) peer_a resolved_world guest_a 7_000_000_000 [] refl

parse-find_app_example : All (λ (a : AppConfig). find_app config a.id ≡ some a) config.apps
unfolding parse parse_app is_valid_id parse_upstream decimal rsplit_once parse_u16 trim
    effective_name text_eq
parse-find_app_example = parse-find_app crates [] config refl

abbrev other_serving : Serving
other_serving = record { config = record config { name = codes "Work" }; events = [] }

reload-Reloaded_example : Reloaded crates [] other_serving (reload crates [] other_serving)
reload-Reloaded_example = reload-Reloaded crates [] other_serving
