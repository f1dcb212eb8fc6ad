-- ===== src/Host/Config/Valid.antt =====
-- waserver/src/config.rs: what a config is that `parse` returns.
use wispers_access.Host.Config.Names.{
  IsUpstream, is_blank, is_id_char, is_valid_id, parse_upstream, parse_upstream-IsUpstream,
}
use wispers_access.Host.Config.Parse.{
  ConfigError, check_scheme, covered, effective_name, invalid_origin, invalid_upstream, is_given,
  parse, parse_app, parse_apps, parse_ca_certificates, parse_forward_proxy, parse_mode, push_app,
  read_forward, read_origin, read_upstream, start_origin_invalid, start_url_invalid, toml_error,
  validate,
}
use wispers_access.Host.Config.Types.{
  AppConfig, AppEntry, AppMode, Crates, ModeName, ShareConfig, ShareFile, forward_mode,
  forward_proxy_to, has_app_id, reverse_mode, reverse_proxy_to,
}
use wispers_access.Prelude.{
  All, All-append, Bool, Bool-cases, List, Option, Result, Text, [], all, any, arith, bind-eq-ok,
  false, inl, inr, is_whitespace, map_err, map_err-eq-ok, none, not, ok, ok-injective, ok_or,
  ok_or-eq-ok, refl, some, subst, trim, trim_none, true, try_map, try_map-All, ◌++◌, ◌>>=◌, ◌||◌,
  ◌∷◌, ◌≡◌,
}
use wispers_access.Prelude.Distinct.{Distinct, Distinct-append_one}
use wispers_access.Prelude.Searches.{all_implies}
use wispers_access.Wire.Origin.{Origin, Url, is_loopback, origin_eq, origin_of, parse_origin}
use wispers_access.Wire.Share.{AppKind, is_web}

pub IsSchemeOk : Origin → Type 0
IsSchemeOk o = o.https ≡ not (is_loopback o)

abbrev pub same_id : AppConfig → AppConfig → Bool
same_id a b = has_app_id b.id a

module _ (crates : Crates) where
  -- A start URL that the crate parsed, and whose origin is listed.
  pub record IsStart (start_url : Text) (origins : List Origin) : Type 0 where
    pub text : Text
    pub url : Url
    pub parsed : crates.url_parse text ≡ some url
    pub rendered : start_url ≡ url.rendered
    pub start_origin : Origin
    pub origin_read : origin_of url ≡ ok start_origin
    pub listed : any (origin_eq start_origin) origins ≡ true

  pub IsMode : AppKind → AppMode → Type 0
  IsMode kind (reverse_proxy_to upstream) = IsUpstream upstream
  IsMode kind (forward_proxy_to start_url origins) =
      (is_web kind ≡ true) × All IsSchemeOk origins × IsStart start_url origins

  pub record IsApp (app : AppConfig) : Type 0 where
    pub id_valid : is_valid_id app.id ≡ true
    pub named : is_blank (trim app.name) ≡ false
    pub mode_valid : IsMode app.kind app.mode

  pub record IsConfig (config : ShareConfig) : Type 0 where
    pub named : is_blank (trim config.name) ≡ false
    pub apps_distinct : Distinct same_id config.apps
    pub apps_valid : All IsApp config.apps

check_scheme-IsSchemeOk : (o p : Origin) → check_scheme o ≡ ok p → IsSchemeOk p
unfolding check_scheme IsSchemeOk
check_scheme-IsSchemeOk o p h = ground arith

module _ (crates : Crates) where
  read_origin-IsSchemeOk : (t : Text) (p : Origin) → read_origin crates t ≡ ok p → IsSchemeOk p
  unfolding read_origin
  read_origin-IsSchemeOk t p h =
      let (o, e, k) =
        bind-eq-ok (map_err invalid_origin (parse_origin crates.url_parse t)) check_scheme h in
      check_scheme-IsSchemeOk o p k

  read_origins-IsSchemeOk :
      (ts : List Text) (os : List Origin)
      → try_map (read_origin crates) ts ≡ ok os
      → All IsSchemeOk os
  read_origins-IsSchemeOk = try_map-All (read_origin crates) IsSchemeOk read_origin-IsSchemeOk

  covered-IsMode :
      (kind : AppKind) (t : Text) (url : Url) (os : List Origin) (o : Origin) (m : AppMode)
      → is_web kind ≡ true
      → All IsSchemeOk os
      → crates.url_parse t ≡ some url
      → origin_of url ≡ ok o
      → covered crates url os o ≡ ok m
      → IsMode crates kind m
  unfolding covered IsMode
  covered-IsMode kind t url os o m w s p r h = elim (Bool-cases (any (origin_eq o) os)) [
    | inl e ↦
        let eq : ok (forward_proxy_to url.rendered os) ≡ ok m = rw (e, covered) at h in
        subst (IsMode crates kind) (ok-injective eq) (
          w,
          s,
          record {
            text = t;
            url = url;
            parsed = p;
            rendered = refl;
            start_origin = o;
            origin_read = r;
            listed = e;
          },
        )
    | inr e ↦ absurd (ground (arith, e, h))
  ]

  parse_forward_proxy-IsMode :
      (kind : AppKind) (start_url : Text) (ts : List Text) (m : AppMode)
      → is_web kind ≡ true
      → parse_forward_proxy crates start_url ts ≡ ok m
      → IsMode crates kind m
  unfolding parse_forward_proxy
  parse_forward_proxy-IsMode kind start_url ts m w h =
      let (os, e, k) =
        bind-eq-ok (try_map (read_origin crates) ts)
          (λ os. ok_or (crates.url_parse (trim start_url)) start_url_invalid >>= λ url.
            map_err start_origin_invalid (origin_of url) >>= covered crates url os)
          h in
      let (url, e', k') =
        bind-eq-ok (ok_or (crates.url_parse (trim start_url)) start_url_invalid)
          (λ url. map_err start_origin_invalid (origin_of url) >>= covered crates url os) k in
      let (o, e'', k'') =
        bind-eq-ok (map_err start_origin_invalid (origin_of url)) (covered crates url os) k' in
      covered-IsMode kind (trim start_url) url os o m w (read_origins-IsSchemeOk ts os e)
        (ok_or-eq-ok _ _ e') (map_err-eq-ok _ _ e'') k''

  read_upstream-IsMode :
      (kind : AppKind) (id : Text) (o : Option Text) (m : AppMode)
      → read_upstream id o ≡ ok m
      → IsMode crates kind m
  unfolding read_upstream IsMode
  read_upstream-IsMode kind id none m h = cc h
  read_upstream-IsMode kind id (some t) m h =
      let (u, e, k) =
        bind-eq-ok (map_err (invalid_upstream id) (parse_upstream t))
          (λ upstream. ok (reverse_proxy_to upstream)) h in
      subst (IsMode crates kind) (ok-injective k)
        (parse_upstream-IsUpstream t u (map_err-eq-ok _ _ e))

  read_forward-IsMode :
      (kind : AppKind) (id : Text) (s : Option Text) (os : Option (List Text)) (m : AppMode)
      → is_web kind ≡ true
      → read_forward crates id s os ≡ ok m
      → IsMode crates kind m
  unfolding read_forward
  read_forward-IsMode kind id (some s) (some os) m w h =
      parse_forward_proxy-IsMode kind s os m w (map_err-eq-ok _ _ h)
  read_forward-IsMode kind id (some s) none m w h = cc h
  read_forward-IsMode kind id none os m w h = cc h

  parse_mode-IsMode :
      (id : Text) (entry : AppEntry) (name : ModeName) (m : AppMode)
      → parse_mode crates id entry name ≡ ok m
      → IsMode crates entry.kind m
  unfolding parse_mode
  parse_mode-IsMode id entry reverse_mode m h =
      elim (Bool-cases (is_given entry.start_url || is_given entry.proxied_origins)) [
        | inl e ↦ absurd (ground (arith, e, h))
        | inr e ↦ read_upstream-IsMode entry.kind id entry.upstream m (rw (e, parse_mode) at h)
      ]
  parse_mode-IsMode id entry forward_mode m h = elim (Bool-cases (is_given entry.upstream)) [
    | inl e ↦ absurd (ground (arith, e, h))
    | inr e ↦ elim (Bool-cases (is_web entry.kind)) [
      | inl w ↦
          read_forward-IsMode entry.kind id entry.start_url entry.proxied_origins m w
            (rw (e, w, parse_mode) at h)
      | inr w ↦ absurd (ground (arith, e, w, h))
    ]
  ]

  no_space : (s : Text) → all is_id_char s ≡ true → all (λ c. not (is_whitespace c)) s ≡ true
  unfolding is_id_char is_whitespace
  no_space s = all_implies is_id_char (λ c. not (is_whitespace c)) s (λ c h. ground arith)

  valid_id-trim : (id : Text) → is_valid_id id ≡ true → (trim id ≡ id) × (is_blank id ≡ false)
  unfolding is_valid_id
  valid_id-trim id v = (trim_none id (no_space id (ground (arith, v))), ground (arith, v))

  effective_name-is_blank :
      (id name : Text) → is_valid_id id ≡ true → is_blank (trim (effective_name id name)) ≡ false
  unfolding effective_name
  effective_name-is_blank id name v = elim (Bool-cases (is_blank (trim name))) [
    | inl e ↦ let (t, b) = valid_id-trim id v in rw (e, t) b
    | inr e ↦ rw e e
  ]

  parse_app-IsApp :
      (entry : AppEntry) (app : AppConfig) → parse_app crates entry ≡ ok app → IsApp crates app
  unfolding parse_app
  parse_app-IsApp entry app h = elim (Bool-cases (is_valid_id entry.id)) [
    | inl v ↦
        let made : AppMode → Result ConfigError AppConfig = λ mode. ok (record {
          id = entry.id;
          name = effective_name entry.id entry.name;
          kind = entry.kind;
          mode = mode;
        }) in
        let (mode, e, k) =
          bind-eq-ok (parse_mode crates entry.id entry entry.mode) made (rw (v, parse_app) at h) in
        subst (IsApp crates) (ok-injective k) (record {
          id_valid = v;
          named = effective_name-is_blank entry.id entry.name v;
          mode_valid = parse_mode-IsMode entry.id entry entry.mode mode e;
        })
    | inr v ↦ absurd (ground (arith, v, h))
  ]

  abbrev Read : List AppConfig → Type 0
  Read apps = Distinct same_id apps × All (IsApp crates) apps

  push_app-Read :
      (apps pushed : List AppConfig) (app : AppConfig)
      → Read apps
      → IsApp crates app
      → push_app apps app ≡ ok pushed
      → Read pushed
  unfolding push_app
  push_app-Read apps pushed app r i h = elim (Bool-cases (any (has_app_id app.id) apps)) [
    | inl e ↦ absurd (ground (arith, e, h))
    | inr e ↦
        let eq : ok (apps ++ (app ∷ [])) ≡ ok pushed = rw (e, push_app) at h in
        subst Read (ok-injective eq)
          (Distinct-append_one same_id app apps r.0 e, All-append (IsApp crates) apps _ r.1 (i, tt))
  ]

  parse_apps-Read :
      (entries : List AppEntry) (apps pushed : List AppConfig)
      → Read apps
      → parse_apps crates apps entries ≡ ok pushed
      → Read pushed
  unfolding parse_apps
  parse_apps-Read [] apps pushed r h = subst Read (ok-injective h) r
  parse_apps-Read (entry ∷ entries) apps pushed r h =
      let (app, e, k) =
        bind-eq-ok (parse_app crates entry)
          (λ app. push_app apps app >>= λ apps. parse_apps crates apps entries) h in
      let (more, e', k') =
        bind-eq-ok (push_app apps app) (λ apps. parse_apps crates apps entries) k in
      parse_apps-Read entries more pushed
        (push_app-Read apps more app r (parse_app-IsApp entry app e) e') k'

  validate-IsConfig :
      (file : ShareFile) (config : ShareConfig)
      → validate crates file ≡ ok config
      → IsConfig crates config
  unfolding validate
  validate-IsConfig file config h = elim (Bool-cases (is_blank (trim file.name))) [
    | inl e ↦ absurd (ground (arith, e, h))
    | inr e ↦
        let made : List AppConfig → List Text → Result ConfigError ShareConfig =
          λ apps certificates. ok (record {
            name = file.name;
            apps = apps;
            ca_certificates = certificates;
            legacy_transport = file.legacy_transport;
          }) in
        let (apps, e', k) =
          bind-eq-ok (parse_apps crates [] file.apps)
            (λ apps. parse_ca_certificates crates 1 file.ca_certificates >>= made apps)
            (rw (e, validate) at h) in
        let (certificates, _, k') =
          bind-eq-ok (parse_ca_certificates crates 1 file.ca_certificates) (made apps) k in
        let (d, v) = parse_apps-Read file.apps [] apps (tt, tt) e' in
        subst (IsConfig crates) (ok-injective k')
          (record { named = e; apps_distinct = d; apps_valid = v })
  ]

-- A parsed config has a name, and its apps have different valid ids, names, and modes that
-- keep their rules: an upstream is a host and a port from 1 to 65535; a forward-proxy app is of
-- kind web, each origin is http exactly when it is loopback, and the start URL's origin is
-- listed.
pub parse-IsConfig :
    (crates : Crates) (text : Text) (config : ShareConfig)
    → parse crates text ≡ ok config
    → IsConfig crates config
unfolding parse
parse-IsConfig crates text config h =
    let (file, e, k) = bind-eq-ok (ok_or (crates.toml_parse text) toml_error) (validate crates) h in
    validate-IsConfig crates file config k
