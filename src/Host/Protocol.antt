-- ===== src/Host/Protocol.antt =====
-- waserver/src/protocol.rs, lines 33 to 129, and waserver/src/forward_proxy.rs, lines 16 to 82: what
-- the host node does with a stream. The bytes that a stream carries are given as what the readers
-- make of them, and connecting to a target as a function that says whether it succeeds.
pub mod Guards
use wispers_access.Host.Config.Hash.{config_hash}
use wispers_access.Prelude.Decimals.{decimal}
use wispers_access.Host.Config.Types.{
  AppConfig, ShareConfig, find_app, forward_proxy_to, has_proxied_origin, reverse_proxy_to,
}
use wispers_access.Host.GuestApi.{
  Formats, Peer, Request, Response, StreamContext, is_authorized, route,
}
use wispers_access.Host.ReverseProxy.{Target, client_too_old, unknown_app, upstream}
use wispers_access.Host.Store.Db.{◌>>=◌, External, M, Time, pure}
use wispers_access.Prelude.{
  Bool, Option, Text, codes, false, if◌then◌else◌, none, not, some, true, ℕ, ◌&&◌, ◌++◌,
}
use wispers_access.Wire.Streams.{
  forward_proxy, reverse_proxy, FirstByte, Plane, StreamType, control_plane, ctrl, data_plane,
  first_byte, plane, typed, unknown_type,
}

pub record Incoming : Type 0 where
  -- `read_exact` of the type byte: none for an error, `some none` for a stream without a byte.
  pub first : Option (Option ℕ)
  -- The preambles, none when `read_message` fails, and the request on a CTRL stream.
  pub app_id : Option Text
  pub target : Option (Text × ℕ)
  pub request : Option Request

pub data Tunnel : Type 0 where
  not_allowed unreachable : Tunnel
  opened : (host : Text) (port : ℕ) → Tunnel

-- `StreamOutcome`, with what a served stream led to, and an error.
pub data Handled : Type 0 where
  refused failed : Handled
  answered : Option Response → Handled
  browsed : Target → (user_id : Text) → Handled
  tunnelled : Tunnel → (user_id : Text) → Handled
  shut no_data : Handled

-- `read_stream_type`.
unfoldable pub read_stream_type : Option (Option ℕ) → Option (Option FirstByte)
unfolding first_byte
read_stream_type none = none
read_stream_type (some none) = some none
read_stream_type (some (some b)) = some (some (first_byte b))

unfoldable pub target_of : ShareConfig → Option AppConfig → Target
target_of config none = unknown_app (config_hash config)
target_of config (some app) = elim app.mode [
  | reverse_proxy_to at ↦ upstream at
  | forward_proxy_to _ _ ↦ client_too_old
]

unfoldable pub app_target : ShareConfig → Text → Target
unfolding target_of find_app
app_target config app_id = target_of config (find_app config app_id)

-- `forward_proxy::serve`, up to the copying of bytes.
unfoldable pub open_tunnel : (Text → Bool) → ShareConfig → Text × ℕ → Tunnel
unfolding has_proxied_origin decimal
open_tunnel connect config (host, port) =
    if has_proxied_origin config host port
    then if connect (host ++ (codes ":" ++ decimal port)) then opened host port else unreachable
    else not_allowed

unfoldable pub is_data : Plane → Bool
is_data data_plane = true
is_data control_plane = false

unfoldable pub on_data_plane : Option FirstByte → Bool
unfolding is_data plane
on_data_plane none = false
on_data_plane (some (unknown_type b)) = false
on_data_plane (some (typed t)) = is_data (plane t)

unfoldable pub browse : ShareConfig → Option Text → Text → Handled
unfolding app_target
browse config none user = failed
browse config (some app_id) user = browsed (app_target config app_id) user

unfoldable pub tunnel : (Text → Bool) → ShareConfig → Option (Text × ℕ) → Text → Handled
unfolding open_tunnel
tunnel connect config none user = failed
tunnel connect config (some target) user = tunnelled (open_tunnel connect config target) user

module _ (x : External) (formats : Formats) (connect : Text → Bool) where
  unfoldable pub answer : StreamContext → Peer → Time → Option Request → M Handled
  unfolding route
  answer ctx peer now none = pure (answered none)
  answer ctx peer now (some req) =
      route x formats req ctx peer now >>= λ response. pure (answered (some response))

  -- The `match` on a data-plane stream's user id: `expect` would panic, the guard excludes it.
  unfoldable pub serve_user : Incoming → StreamContext → StreamType → Option Text → Handled
  unfolding browse tunnel
  serve_user stream ctx t none = failed
  serve_user stream ctx reverse_proxy (some user) = browse ctx.config stream.app_id user
  serve_user stream ctx forward_proxy (some user) = tunnel connect ctx.config stream.target user
  serve_user stream ctx ctrl (some user) = failed

  unfoldable pub serve_type : Incoming → StreamContext → Peer → Time → Option FirstByte → M Handled
  unfolding answer serve_user
  serve_type stream ctx peer now none = pure no_data
  serve_type stream ctx peer now (some (unknown_type b)) = pure shut
  serve_type stream ctx peer now (some (typed ctrl)) = answer ctx peer now stream.request
  serve_type stream ctx peer now (some (typed reverse_proxy)) =
      pure (serve_user stream ctx reverse_proxy peer.user_id)
  serve_type stream ctx peer now (some (typed forward_proxy)) =
      pure (serve_user stream ctx forward_proxy peer.user_id)

  unfoldable pub after_type :
      Incoming → StreamContext → Peer → Time → Option (Option FirstByte) → M Handled
  unfolding serve_type on_data_plane is_authorized
  after_type stream ctx peer now none = pure failed
  after_type stream ctx peer now (some first) =
      if on_data_plane first && not (is_authorized peer)
      then pure refused
      else serve_type stream ctx peer now first

  unfoldable pub handle : Incoming → StreamContext → Peer → Time → M Handled
  unfolding after_type read_stream_type
  handle stream ctx peer now = after_type stream ctx peer now (read_stream_type stream.first)
