-- ===== src/Host/Config/Parse.antt =====
-- waserver/src/config.rs, lines 112 to 150 and 244 to 370: `parse` and the validation of an app.
use wispers_access.Host.Config.Names.{UpstreamError, is_blank, is_valid_id, parse_upstream}
use wispers_access.Host.Config.Types.{
  AppConfig, AppEntry, AppMode, Crates, ModeName, SectionKind, ShareConfig, ShareFile, certificate,
  forward_mode, forward_proxy_to, has_app_id, other_section, reverse_mode, reverse_proxy_to,
}
use wispers_access.Prelude.{
  Bool, List, Option, Result, Text, [], any, codes, drop, err, false, if◌then◌else◌, length,
  map_err, none, not, ok, ok_or, some, suc, take, trim, true, try_map, zero, ℕ, ◌&&◌, ◌++◌, ◌>>=◌,
  ◌||◌, ◌∷◌,
}
use wispers_access.Wire.Origin.{
  Origin, OriginError, Url, is_loopback, origin_eq, origin_of, parse_origin,
}
use wispers_access.Wire.Share.{is_web}

pub data InvalidApp : Type 0 where
  needs_forward_mode upstream_missing upstream_not_allowed needs_web fields_missing : InvalidApp
  invalid_origin : OriginError → InvalidApp
  loopback_https other_http : InvalidApp
  start_url_invalid : InvalidApp
  start_origin_invalid : OriginError → InvalidApp
  start_origin_missing : InvalidApp

pub data CertificateError : Type 0 where
  bad_pem no_certificate not_a_certificate several_sections not_x509 : CertificateError

-- `Error`, but for `Read`: a text is given.
pub data ConfigError : Type 0 where
  toml_error empty_name : ConfigError
  invalid_app_id duplicate_app_id : Text → ConfigError
  invalid_upstream : Text → UpstreamError → ConfigError
  invalid_app : Text → InvalidApp → ConfigError
  invalid_ca_certificate : ℕ → CertificateError → ConfigError

unfoldable pub check_scheme : Origin → Result InvalidApp Origin
unfolding is_loopback
check_scheme o =
    if is_loopback o && o.https
    then err loopback_https
    else if not (is_loopback o) && not o.https
    then err other_http
    else ok o

abbrev pub is_given {ℓ} : {A : Type ℓ} → Option A → Bool
is_given none = false
is_given (some a) = true

unfoldable pub effective_name : Text → Text → Text
unfolding trim
effective_name id name = if is_blank (trim name) then id else name

abbrev chunk_lines : ℕ → Text → Text
chunk_lines zero s = []
chunk_lines (suc fuel) s =
    let rest = chunk_lines fuel (drop 64 s) in
    if is_blank s then [] else take 64 s ++ (codes "\n" ++ rest)

-- `upstream.ok_or_else(..)?` and `parse_upstream`.
unfoldable pub read_upstream : Text → Option Text → Result ConfigError AppMode
unfolding parse_upstream
read_upstream id o = ok_or o (invalid_app id upstream_missing) >>= λ upstream.
    map_err (invalid_upstream id) (parse_upstream upstream) >>= λ upstream.
    ok (reverse_proxy_to upstream)

-- An app that the loop of `parse` adds to the apps so far.
unfoldable pub push_app : List AppConfig → AppConfig → Result ConfigError (List AppConfig)
push_app apps app =
    if any (has_app_id app.id) apps then err (duplicate_app_id app.id) else ok (apps ++ (app ∷ []))

module _ (crates : Crates) where
  unfoldable pub read_origin : Text → Result InvalidApp Origin
  unfolding parse_origin check_scheme
  read_origin o = map_err invalid_origin (parse_origin crates.url_parse o) >>= check_scheme

  unfoldable pub covered : Url → List Origin → Origin → Result InvalidApp AppMode
  covered url origins start_origin =
      if any (origin_eq start_origin) origins
      then ok (forward_proxy_to url.rendered origins)
      else err start_origin_missing

  unfoldable pub parse_forward_proxy : Text → List Text → Result InvalidApp AppMode
  unfolding read_origin covered
  parse_forward_proxy start_url origins = try_map read_origin origins >>= λ origins.
      ok_or (crates.url_parse (trim start_url)) start_url_invalid >>= λ url.
      map_err start_origin_invalid (origin_of url) >>= covered url origins

  unfoldable pub read_forward : Text → Option Text → Option (List Text) → Result ConfigError AppMode
  read_forward id (some start_url) (some origins) =
      map_err (invalid_app id) (parse_forward_proxy start_url origins)
  read_forward id (some start_url) none = err (invalid_app id fields_missing)
  read_forward id none o = err (invalid_app id fields_missing)

  unfoldable pub parse_mode : Text → AppEntry → ModeName → Result ConfigError AppMode
  unfolding read_upstream read_forward is_web
  parse_mode id entry reverse_mode =
      if is_given entry.start_url || is_given entry.proxied_origins
      then err (invalid_app id needs_forward_mode)
      else read_upstream id entry.upstream
  parse_mode id entry forward_mode =
      if is_given entry.upstream
      then err (invalid_app id upstream_not_allowed)
      else if not (is_web entry.kind)
      then err (invalid_app id needs_web)
      else read_forward id entry.start_url entry.proxied_origins

  unfoldable pub parse_app : AppEntry → Result ConfigError AppConfig
  unfolding parse_mode effective_name is_valid_id
  parse_app entry =
      if is_valid_id entry.id
      then (parse_mode entry.id entry entry.mode >>= λ mode. ok (record {
        id = entry.id;
        name = effective_name entry.id entry.name;
        kind = entry.kind;
        mode = mode;
      }))
      else err (invalid_app_id entry.id)

  unfoldable pub parse_apps : List AppConfig → List AppEntry → Result ConfigError (List AppConfig)
  unfolding push_app parse_app
  parse_apps apps [] = ok apps
  parse_apps apps (entry ∷ entries) =
      parse_app entry >>= λ app. push_app apps app >>= λ apps. parse_apps apps entries

  unfoldable pub pem_certificate : List ℕ → Text
  pem_certificate der =
      let base64 = crates.base64 der in
      codes "-----BEGIN CERTIFICATE-----\n"
      ++ (chunk_lines (length base64) base64 ++ codes "-----END CERTIFICATE-----\n")

  unfoldable pub one_certificate : List (SectionKind × List ℕ) → Result CertificateError Text
  unfolding pem_certificate
  one_certificate [] = err no_certificate
  one_certificate ((certificate, der) ∷ []) =
      if crates.is_x509 der then ok (pem_certificate der) else err not_x509
  one_certificate ((other_section, der) ∷ []) = err not_a_certificate
  one_certificate (a ∷ b ∷ rest) = err several_sections

  unfoldable pub parse_ca_certificate : Text → Result CertificateError Text
  unfolding one_certificate
  parse_ca_certificate pem = ok_or (crates.pem_sections pem) bad_pem >>= one_certificate

  -- Entries are numbered from 1 in an error.
  unfoldable pub parse_ca_certificates : ℕ → List Text → Result ConfigError (List Text)
  unfolding parse_ca_certificate
  parse_ca_certificates number [] = ok []
  parse_ca_certificates number (pem ∷ pems) =
      map_err (invalid_ca_certificate number) (parse_ca_certificate pem) >>= λ first.
      parse_ca_certificates (suc number) pems >>= λ rest. ok (first ∷ rest)

  unfoldable pub validate : ShareFile → Result ConfigError ShareConfig
  unfolding parse_apps parse_ca_certificates
  validate file =
      if is_blank (trim file.name)
      then err empty_name
      else (parse_apps [] file.apps >>= λ apps.
          parse_ca_certificates 1 file.ca_certificates >>= λ certificates. ok (record {
            name = file.name;
            apps = apps;
            ca_certificates = certificates;
            legacy_transport = file.legacy_transport;
          }))

  -- `ShareConfig::parse`.
  unfoldable pub parse : Text → Result ConfigError ShareConfig
  unfolding validate
  parse text = ok_or (crates.toml_parse text) toml_error >>= validate
