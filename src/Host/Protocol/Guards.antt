-- ===== src/Host/Protocol/Guards.antt =====
-- What a peer reaches through a stream.

use wispers_access.Host.Config.Hash.{config_hash}
use wispers_access.Prelude.Decimals.{decimal}
use wispers_access.Host.Config.Types.{
  AppConfig, AppMode, ShareConfig, find_app, forward_proxy_to, has_proxied_origin, reverse_proxy_to,
}
use wispers_access.Host.GuestApi.{
  Formats, Peer, Request, Response, StreamContext, is_authorized, route,
}
use wispers_access.Host.Protocol.{
  Handled, Incoming, Tunnel, after_type, answer, answered, app_target, browse, browsed, failed,
  handle, no_data, not_allowed, on_data_plane, open_tunnel, opened, read_stream_type, refused,
  serve_type, serve_user, shut, target_of, tunnel, tunnelled, unreachable,
}
use wispers_access.Host.ReverseProxy.{Target, client_too_old, unknown_app, upstream}
use wispers_access.Host.Store.Db.{Db, Error, External, Time, bind_result, pure}
use wispers_access.Prelude.{
  Bool, Bool-cases, Option, Option-cases, Result, Text, arith, codes, err, false, inl, inr, none,
  not, ok, ok-injective, refl, some, subst, true, ℕ, ◌&&◌, ◌++◌, ◌≡◌,
}
use wispers_access.Wire.Streams.{
  forward_proxy, reverse_proxy, FirstByte, StreamType, ctrl, typed, unknown_type,
}

IsTarget : ShareConfig → Target → Type 0
IsTarget config (upstream at) =
    (app_id : Text) × (app : AppConfig) × (find_app config app_id ≡ some app)
    × (app.mode ≡ reverse_proxy_to at)
IsTarget config (unknown_app hash) = hash ≡ config_hash config
IsTarget config client_too_old = Unit

IsTunnel : (Text → Bool) → ShareConfig → Tunnel → Type 0
IsTunnel connect config not_allowed = Unit
IsTunnel connect config unreachable = Unit
IsTunnel connect config (opened host port) =
    (has_proxied_origin config host port ≡ true)
    × (connect (host ++ (codes ":" ++ decimal port)) ≡ true)

-- An app or an origin is reached by an activated peer, under its user id, and the config shares it.
pub Reaches : (Text → Bool) → StreamContext → Peer → Handled → Type 0
Reaches connect ctx peer refused = (is_authorized peer ≡ false)
Reaches connect ctx peer failed = Unit
Reaches connect ctx peer (answered response) = Unit
Reaches connect ctx peer (browsed target user) =
    (peer.user_id ≡ some user) × IsTarget ctx.config target
Reaches connect ctx peer (tunnelled t user) =
    (peer.user_id ≡ some user) × IsTunnel connect ctx.config t
Reaches connect ctx peer shut = Unit
Reaches connect ctx peer no_data = Unit

mode-IsTarget :
    (config : ShareConfig) (app_id : Text) (app : AppConfig) (m : AppMode)
    → find_app config app_id ≡ some app
    → app.mode ≡ m
    → IsTarget config (target_of config (some app))
unfolding IsTarget target_of
mode-IsTarget config app_id app (reverse_proxy_to at) f e = rw e (app_id, app, f, e)
mode-IsTarget config app_id app (forward_proxy_to s os) f e = rw e tt

app_target-IsTarget :
    (config : ShareConfig) (app_id : Text) → IsTarget config (app_target config app_id)
unfolding app_target target_of IsTarget
app_target-IsTarget config app_id = elim (Option-cases (find_app config app_id)) [
  | inl e ↦ rw e refl
  | inr (app, e) ↦ rw e (mode-IsTarget config app_id app app.mode e refl)
]

open_tunnel-IsTunnel :
    (connect : Text → Bool) (config : ShareConfig) (t : Text × ℕ)
    → IsTunnel connect config (open_tunnel connect config t)
unfolding open_tunnel IsTunnel
open_tunnel-IsTunnel connect config (host, port) =
    elim (Bool-cases (has_proxied_origin config host port)) [
      | inl e ↦ elim (Bool-cases (connect (host ++ (codes ":" ++ decimal port)))) [
        | inl c ↦ rw (e, c) (e, c)
        | inr c ↦ rw (e, c) tt
      ]
      | inr e ↦ rw e tt
    ]

module _ (x : External) (formats : Formats) (connect : Text → Bool) (stream : Incoming)
    (ctx : StreamContext) (peer : Peer) (now : Time) where
  serve_user-Reaches :
      (t : StreamType) (o : Option Text)
      → peer.user_id ≡ o
      → Reaches connect ctx peer (serve_user x formats connect stream ctx t o)
  unfolding serve_user Reaches browse tunnel
  serve_user-Reaches t none e = tt
  serve_user-Reaches reverse_proxy (some user) e = elim (Option-cases stream.app_id) [
    | inl n ↦ rw n tt
    | inr (app_id, n) ↦ rw n (e, app_target-IsTarget ctx.config app_id)
  ]
  serve_user-Reaches forward_proxy (some user) e = elim (Option-cases stream.target) [
    | inl n ↦ rw n tt
    | inr (target, n) ↦ rw n (e, open_tunnel-IsTunnel connect ctx.config target)
  ]
  serve_user-Reaches ctrl (some user) e = tt

  abbrev Ends : Result Error Handled × Db → Type 0
  Ends r = (h : Handled) → r.0 ≡ ok h → Reaches connect ctx peer h

  pure-Ends : (h : Handled) (d : Db) → Reaches connect ctx peer h → Ends (pure h d)
  pure-Ends h d r h' e = subst (Reaches connect ctx peer) (ok-injective e) r

  answered-Ends :
      (r : Result Error Response) (d : Db)
      → Ends (bind_result r (λ response. pure (answered (some response))) d)
  unfolding Reaches
  answered-Ends (ok response) d h e = pure-Ends (answered (some response)) d tt h e
  answered-Ends (err e') d h e = cc e

  answer-Ends : (o : Option Request) (d : Db) → Ends (answer x formats connect ctx peer now o d)
  unfolding answer Reaches
  answer-Ends none d h e = pure-Ends (answered none) d tt h e
  answer-Ends (some req) d h e =
      answered-Ends (route x formats req ctx peer now d).0 (route x formats req ctx peer now d).1 h
        e

  serve_type-Ends :
      (o : Option FirstByte) (d : Db) → Ends (serve_type x formats connect stream ctx peer now o d)
  unfolding serve_type Reaches
  serve_type-Ends none d = pure-Ends no_data d tt
  serve_type-Ends (some (unknown_type b)) d = pure-Ends shut d tt
  serve_type-Ends (some (typed ctrl)) d = answer-Ends stream.request d
  serve_type-Ends (some (typed reverse_proxy)) d =
      pure-Ends _ d (serve_user-Reaches reverse_proxy peer.user_id refl)
  serve_type-Ends (some (typed forward_proxy)) d =
      pure-Ends _ d (serve_user-Reaches forward_proxy peer.user_id refl)

  after_type-Ends :
      (o : Option (Option FirstByte)) (d : Db)
      → Ends (after_type x formats connect stream ctx peer now o d)
  unfolding after_type Reaches
  after_type-Ends none d = pure-Ends failed d tt
  after_type-Ends (some first) d =
      elim (Bool-cases (on_data_plane first && not (is_authorized peer))) [
        | inl e ↦ rw e (pure-Ends refused d (ground (arith, e)))
        | inr e ↦ rw e (serve_type-Ends first d)
      ]

  -- Whatever a stream carries: an upstream is reached only for a peer that is activated, with its
  -- user id, and it is the upstream of a reverse-proxy app of the config; a tunnel is opened only
  -- for such a peer, to a host and port of a proxied origin; only peers that are not activated are
  -- refused.
  pub handle-Reaches :
      (d : Db) (h : Handled)
      → (handle x formats connect stream ctx peer now d).0 ≡ ok h
      → Reaches connect ctx peer h
  unfolding handle
  handle-Reaches d = after_type-Ends (read_stream_type stream.first) d
