-- ===== src/Tests/SdkSample.antt =====
-- A concrete JSON codec and store of a client that the tests share.
use wispers_access.Prelude.{
  List, Text, [], ap, codes, map, none, refl, some, suc, true, zero, ℕ, ◌++◌, ◌∙◌, ◌∷◌, ◌≡◌,
}
use wispers_access.Sdk.Store.Db.{ShareRow, Tables}
use wispers_access.Sdk.Store.Rows.{Json, ReadsBack, blank_share}
use wispers_access.Wire.Share.{ShareInfo, SharedApp, jellyfin, reverse_proxy}

-- A text per item: its characters, one up, and a zero.
encode : List Text → Text
encode [] = []
encode (t ∷ ts) = map suc t ++ (0 ∷ encode ts)

push : ℕ → List Text → List Text
push c [] = (c ∷ []) ∷ []
push c (t ∷ ts) = (c ∷ t) ∷ ts

decode : Text → List Text
unfolding push
decode [] = []
decode (zero ∷ s) = [] ∷ decode s
decode (suc c ∷ s) = push c (decode s)

decode-text : (t rest : Text) → decode (map suc t ++ (0 ∷ rest)) ≡ t ∷ decode rest
unfolding decode push
decode-text [] rest = refl
decode-text (c ∷ t) rest = ap (push c) (decode-text t rest)

decode-encode : (ts : List Text) → decode (encode ts) ≡ ts
unfolding decode encode
decode-encode [] = refl
decode-encode (t ∷ ts) = decode-text t (encode ts) ∙ ap (◌∷◌ t) (decode-encode ts)

unfoldable pub codec : Json
unfolding encode decode
codec = record { to_json = encode; from_json = λ s. some (decode s) }

pub codec-ReadsBack : ReadsBack codec
unfolding codec
codec-ReadsBack ts = ap some (decode-encode ts)

abbrev pub one : ShareRow
one = record (blank_share 1 (codes "s1") 0 []) {
  hostname = some (codes "family");
  complete = some true;
}

abbrev pub two : ShareRow
two = blank_share 2 (codes "s2") 0 []

abbrev pub two_shares : Tables
two_shares = record { shares = one ∷ two ∷ []; apps = []; app_ports = []; last_id = 2 }

abbrev pub jellyfin_app : SharedApp
jellyfin_app = record {
  id = codes "jf";
  name = codes "Jellyfin";
  kind = jellyfin;
  mode = reverse_proxy;
  start_url = none;
  proxied_origins = [];
}

abbrev pub family : ShareInfo
family = record {
  config_hash = 7;
  name = codes "Family";
  transport = codes "iroh";
  apps = jellyfin_app ∷ [];
  ca_certificates = [];
}
