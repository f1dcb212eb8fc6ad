-- ===== src/Wire/Share.antt =====
-- wire/src/lib.rs, lines 526 to 640: the share as its guests see it.
-- The JSON names of a kind and of a mode are those of `as_str`, `serde`'s kebab case.
use wispers_access.Prelude.{
  if◌then◌else◌, text_eq, refl, ◌≡◌, Bool, List, Option, Text, codes, false, true, ℕ,
}

pub data AppKind : Type 0 where
  web jellyfin immich : AppKind

pub data AppProxyMode : Type 0 where
  reverse_proxy forward_proxy unknown : AppProxyMode

pub record SharedApp : Type 0 where
  pub id : Text
  pub name : Text
  pub kind : AppKind
  pub mode : AppProxyMode
  pub start_url : Option Text
  pub proxied_origins : List Text

pub record ShareInfo : Type 0 where
  pub config_hash : ℕ
  pub name : Text
  pub transport : Text
  pub apps : List SharedApp
  pub ca_certificates : List Text

unfoldable pub kind_str : AppKind → Text
kind_str web = codes "web"
kind_str jellyfin = codes "jellyfin"
kind_str immich = codes "immich"

unfoldable pub mode_str : AppProxyMode → Text
mode_str reverse_proxy = codes "reverse-proxy"
mode_str forward_proxy = codes "forward-proxy"
mode_str unknown = codes "unknown"

unfoldable pub is_web : AppKind → Bool
is_web web = true
is_web jellyfin = false
is_web immich = false

-- `AppKind::parse_or_web`: serde's kebab-case names, `web` for the rest.
unfoldable pub parse_or_web : Text → AppKind
unfolding text_eq
parse_or_web s =
    if text_eq s (codes "jellyfin")
    then jellyfin
    else if text_eq s (codes "immich")
    then immich
    else web

-- `AppProxyMode::parse`: serde's kebab-case names, `Unknown` for the rest.
unfoldable pub parse_proxy_mode : Text → AppProxyMode
unfolding text_eq
parse_proxy_mode s =
    if text_eq s (codes "reverse-proxy")
    then reverse_proxy
    else if text_eq s (codes "forward-proxy")
    then forward_proxy
    else unknown

pub parse_or_web-kind_str : (k : AppKind) → parse_or_web (kind_str k) ≡ k
unfolding parse_or_web kind_str
parse_or_web-kind_str web = refl
parse_or_web-kind_str jellyfin = refl
parse_or_web-kind_str immich = refl

pub parse_proxy_mode-mode_str : (m : AppProxyMode) → parse_proxy_mode (mode_str m) ≡ m
unfolding parse_proxy_mode mode_str
parse_proxy_mode-mode_str reverse_proxy = refl
parse_proxy_mode-mode_str forward_proxy = refl
parse_proxy_mode-mode_str unknown = refl
