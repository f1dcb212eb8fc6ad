-- ===== src/Host/Config/Types.antt =====
-- waserver/src/config.rs, lines 12 to 110 and 152 to 242: a config, as validated and as written.
-- What the crates `toml`, `url` and `rustls` do with a text is a parameter, `Crates`.
use wispers_access.Prelude.{
  Bool, List, Option, Text, [], any, false, find, if◌then◌else◌, leb, text_eq, true, ℕ, ◌&&◌, ◌+◌,
  ◌==◌, ◌∷◌,
}
use wispers_access.Wire.Origin.{Origin, Url}
use wispers_access.Wire.Share.{AppKind, AppProxyMode, forward_proxy, reverse_proxy}

pub data LegacyTransport : Type 0 where
  wispers_connect : (backend : Option Text) → LegacyTransport
  iroh : LegacyTransport

-- `AppProxyMode` of the config.
pub data AppMode : Type 0 where
  reverse_proxy_to : (upstream : Text) → AppMode
  forward_proxy_to : (start_url : Text) (origins : List Origin) → AppMode

pub record AppConfig : Type 0 where
  pub id : Text
  pub name : Text
  pub kind : AppKind
  pub mode : AppMode

pub record ShareConfig : Type 0 where
  pub name : Text
  pub apps : List AppConfig
  pub ca_certificates : List Text
  pub legacy_transport : Option LegacyTransport

-- `AppProxyMode::wire`.
unfoldable pub wire_mode : AppMode → AppProxyMode
wire_mode (reverse_proxy_to _) = reverse_proxy
wire_mode (forward_proxy_to _ _) = forward_proxy

pub data ModeName : Type 0 where
  reverse_mode forward_mode : ModeName

pub record AppEntry : Type 0 where
  pub id : Text
  pub name : Text
  pub kind : AppKind
  pub mode : ModeName
  pub upstream : Option Text
  pub start_url : Option Text
  pub proxied_origins : Option (List Text)

pub record ShareFile : Type 0 where
  pub name : Text
  pub apps : List AppEntry
  pub ca_certificates : List Text
  pub legacy_transport : Option LegacyTransport

-- `SectionKind`, as far as the code tells its values apart.
pub data SectionKind : Type 0 where
  certificate other_section : SectionKind

pub record Crates : Type 0 where
  -- `toml::from_str` of a `ShareFile`
  pub toml_parse : Text → Option ShareFile
  -- `url::Url::parse`
  pub url_parse : Text → Option Url
  -- `pem_slice_iter` collected, `RootCertStore::add`, `BASE64.encode`
  pub pem_sections : Text → Option (List (SectionKind × List ℕ))
  pub is_x509 : List ℕ → Bool
  pub base64 : List ℕ → Text

unfoldable pub has_app_id : Text → AppConfig → Bool
has_app_id app_id app = text_eq app.id app_id

unfoldable pub find_app : ShareConfig → Text → Option AppConfig
unfolding has_app_id
find_app config app_id = find (has_app_id app_id) config.apps

unfoldable pub to_ascii_lowercase : ℕ → ℕ
to_ascii_lowercase c = if leb 65 c && leb c 90 then c + 32 else c

unfoldable pub eq_ignore_ascii_case : Text → Text → Bool
unfolding to_ascii_lowercase
eq_ignore_ascii_case [] [] = true
eq_ignore_ascii_case [] (y ∷ ys) = false
eq_ignore_ascii_case (x ∷ xs) [] = false
eq_ignore_ascii_case (x ∷ xs) (y ∷ ys) =
    to_ascii_lowercase x == to_ascii_lowercase y && eq_ignore_ascii_case xs ys

unfoldable pub is_at : Text → ℕ → Origin → Bool
unfolding eq_ignore_ascii_case
is_at host port o = eq_ignore_ascii_case o.host host && o.port == port

unfoldable pub proxies_at : Text → ℕ → AppMode → Bool
unfolding is_at
proxies_at host port (reverse_proxy_to _) = false
proxies_at host port (forward_proxy_to _ origins) = any (is_at host port) origins

unfoldable pub has_proxied_origin : ShareConfig → Text → ℕ → Bool
unfolding proxies_at
has_proxied_origin config host port =
    any (λ (app : AppConfig). proxies_at host port app.mode) config.apps
