-- ===== src/Sdk/Store/Info.antt =====
-- sdk/src/storage.rs, lines 242 to 275 and 289 to 311: the share's metadata as last fetched, written in one
-- transaction and read back.
use wispers_access.Prelude.{
  Bool, List, Option, Result, Text, [], any, delete_where, err, if◌then◌else◌, leb, map, none, not,
  ok, select, some, suc, text_eq, ℕ, ◌&&◌, ◌++◌, ◌==◌, ◌∷◌,
}
use wispers_access.Sdk.Store.Db.{
  ◌>>◌, AppRow, Error, M, Tables, constraint, pure, query, statement, transaction, update_share,
}
use wispers_access.Sdk.Store.Rows.{has_share, Json}
use wispers_access.Wire.ConfigHash.{hex16}
use wispers_access.Wire.Share.{
  parse_proxy_mode, ShareInfo, SharedApp, kind_str, mode_str, parse_or_web,
}

abbrev pub app_row : Json → ℕ → ℕ → SharedApp → AppRow
app_row j id position app = record {
  share = id;
  position = position;
  app_id = app.id;
  name = app.name;
  kind = kind_str app.kind;
  mode = mode_str app.mode;
  start_url = app.start_url;
  proxied_origins = j.to_json app.proxied_origins;
}

-- PRIMARY KEY (share_id, app_id).
abbrev pub same_app : AppRow → AppRow → Bool
same_app a b = a.share == b.share && text_eq a.app_id b.app_id

unfoldable pub insert_app : AppRow → Tables → Result Error (Unit {0} × Tables)
unfolding text_eq
insert_app a t =
    if not (has_share a.share t)
    then err constraint
    else if any (same_app a) t.apps
    then err constraint
    else ok (tt, record t { apps = t.apps ++ (a ∷ []) })

-- The loop over `info.apps.iter().enumerate()`.
unfoldable pub insert_apps : Json → ℕ → ℕ → List SharedApp → M (Unit {0})
unfolding statement insert_app kind_str mode_str
insert_apps j id position [] = pure tt
insert_apps j id position (a ∷ apps) =
    statement (insert_app (app_row j id position a)) >> insert_apps j id (suc position) apps

unfoldable pub write_info_columns : Json → ℕ → ShareInfo → M (Unit {0})
unfolding update_share hex16
write_info_columns j id info = update_share id (λ r. record r {
  display_name = some info.name;
  config_hash = some (hex16 info.config_hash);
  ca_certificates = j.to_json info.ca_certificates;
})

unfoldable pub delete_apps : ℕ → M (Unit {0})
unfolding statement
delete_apps id =
    statement
      (λ t. ok (tt, record t { apps = delete_where (λ (a : AppRow). a.share == id) t.apps }))

unfoldable pub write_share_info : Json → ℕ → ShareInfo → M (Unit {0})
unfolding transaction write_info_columns delete_apps insert_apps
write_share_info j id info =
    transaction (write_info_columns j id info >> delete_apps id >> insert_apps j id 0 info.apps)

-- ORDER BY position: rows of one position stay in the order of the table.
unfoldable pub insert_by_position : AppRow → List AppRow → List AppRow
insert_by_position a [] = a ∷ []
insert_by_position a (b ∷ bs) =
    let rest = insert_by_position a bs in if leb a.position b.position then a ∷ b ∷ bs else b ∷ rest

unfoldable pub order_by_position : List AppRow → List AppRow
unfolding insert_by_position
order_by_position [] = []
order_by_position (a ∷ later) = insert_by_position a (order_by_position later)

abbrev or_default : Option (List Text) → List Text
or_default none = []
or_default (some l) = l

unfoldable pub app_of_row : Json → AppRow → SharedApp
unfolding parse_or_web parse_proxy_mode
app_of_row j a = record {
  id = a.app_id;
  name = a.name;
  kind = parse_or_web a.kind;
  mode = parse_proxy_mode a.mode;
  start_url = a.start_url;
  proxied_origins = or_default (j.from_json a.proxied_origins);
}

unfoldable pub apps_of : Json → ℕ → Tables → List SharedApp
unfolding order_by_position app_of_row
apps_of j id t =
    map (app_of_row j) (order_by_position (select (λ (a : AppRow). a.share == id) t.apps))

unfoldable pub read_apps : Json → ℕ → M (List SharedApp)
unfolding query apps_of
read_apps j id = query (λ t. ok (apps_of j id t))
