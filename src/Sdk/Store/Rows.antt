-- ===== src/Sdk/Store/Rows.antt =====
-- sdk/src/storage.rs, lines 61 to 240, 277 to 287, 313 to 350, 376 to 458 and 551 to 554: the methods of
-- `DB` and of `Row` that read and write single columns. A `Row` is the id that it holds. The
-- lock on the connection lets one method run at a time, so a method is a function of the store.
use wispers_access.Prelude.{
  Bool, List, Option, Result, Text, [], any, codes, err, false, find, if◌then◌else◌, leb, ltb, map,
  map_err, none, not, ok, ok_or, select, some, suc, text_eq, true, update_where, ℕ, ◌&&◌, ◌++◌,
  ◌==◌, ◌||◌, ◌∷◌, ◌≡◌,
}
use wispers_access.Sdk.Store.Db.{
  Error, M, PortRow, ShareRow, Tables, bad_json, constraint, delete_shares, failure, out_of_range,
  query, read_column, statement, unknown_transport, update_share,
}
use wispers_access.Wire.ConfigHash.{parse_hash}
use wispers_access.Wire.Transport.{Transport, from_str}
use mathlib.Core.Option

-- `serde_json` on a list of strings: a call that the store makes and does not implement.
pub record Json : Type 0 where
  pub to_json : List Text → Text
  pub from_json : Text → Option (List Text)

-- What is written is read back, which `serde_json` documents for a list of strings.
abbrev pub ReadsBack : Json → Type 0
ReadsBack j = (l : List Text) → j.from_json (j.to_json l) ≡ some l

abbrev pub is_text : Text → Option Text → Bool
is_text t none = false
is_text t (some s) = text_eq s t

abbrev pub is_true : Option Bool → Bool
is_true none = false
is_true (some b) = b

-- SQL's `complete = FALSE`, which a NULL does not meet.
abbrev pub is_false : Option Bool → Bool
is_false none = false
is_false (some b) = not b

-- The largest row id, after which AUTOINCREMENT fails.
abbrev pub max_rowid : ℕ
max_rowid = 0x7fff_ffff_ffff_ffff

abbrev pub blank_share : ℕ → Text → ℕ → Text → ShareRow
blank_share id share_id now no_certificates = record {
  id = id;
  share_id = share_id;
  display_name = none;
  hostname = none;
  transport = codes "wispers-connect";
  wispers_connect_backend = none;
  iroh_endpoint_id = none;
  config_hash = none;
  created_at = now;
  complete = none;
  terminal_state = none;
  outdated = false;
  ca_certificates = no_certificates;
  forward_proxy_port = none;
}

unfoldable pub insert_share : Text → ℕ → Tables → Result Error (ℕ × Tables)
unfolding text_eq
insert_share share_id now t =
    let id = suc t.last_id in
    if leb max_rowid t.last_id
    then err failure
    else if any (λ (r : ShareRow). text_eq r.share_id share_id) t.shares
    then err constraint
    else ok (
      id,
      record t {
        shares = t.shares ++ (blank_share id share_id now (codes "[]") ∷ []);
        last_id = id;
      },
    )

-- `share_id` is the UUID that `ShareId::mint` makes and `now` the clock's milliseconds.
unfoldable pub new_row : Text → ℕ → M ℕ
unfolding statement insert_share
new_row share_id now = statement (insert_share share_id now)

abbrev pub names_row : Text → ShareRow → Bool
names_row key r = is_true r.complete && (is_text key r.hostname || text_eq r.share_id key)

unfoldable pub find_row : Text → M (Option ℕ)
unfolding query text_eq
find_row key = query (λ t. ok (Option.map (λ (r : ShareRow). r.id) (find (names_row key) t.shares)))

unfoldable pub get_all_rows : M (List ℕ)
unfolding query
get_all_rows = query (λ t.
    ok (map (λ (r : ShareRow). r.id) (select (λ (r : ShareRow). is_true r.complete) t.shares)))

unfoldable pub share_id_of : ℕ → M Text
unfolding read_column
share_id_of id = read_column id (λ r. ok r.share_id)

unfoldable pub write_display_name : ℕ → Text → M (Unit {0})
unfolding update_share
write_display_name id name = update_share id (λ r. record r { display_name = some name })

abbrev pub or_blank : Option Text → Text
or_blank none = []
or_blank (some t) = t

unfoldable pub read_names : ℕ → M (Text × (Text × Text))
unfolding read_column
read_names id =
    read_column id (λ r. ok (r.share_id, (or_blank r.display_name, or_blank r.hostname)))

unfoldable pub write_wispers_connect_backend : ℕ → Option Text → M (Unit {0})
unfolding update_share
write_wispers_connect_backend id backend =
    update_share id (λ r. record r { wispers_connect_backend = backend })

unfoldable pub write_iroh_endpoint_id : ℕ → Text → M (Unit {0})
unfolding update_share
write_iroh_endpoint_id id host =
    update_share id (λ r. record r { transport = codes "iroh"; iroh_endpoint_id = some host })

unfoldable pub read_iroh_endpoint_id : ℕ → M (Option Text)
unfolding read_column
read_iroh_endpoint_id id = read_column id (λ r. ok r.iroh_endpoint_id)

unfoldable pub read_transport_kind : ℕ → M Transport
unfolding read_column from_str
read_transport_kind id = read_column id (λ r. map_err unknown_transport (from_str r.transport))

unfoldable pub read_wispers_connect_backend : ℕ → M (Option Text)
unfolding read_column
read_wispers_connect_backend id = read_column id (λ r. ok r.wispers_connect_backend)

abbrev pub and_then : Option Text → (Text → Option ℕ) → Option ℕ
and_then none f = none
and_then (some t) f = f t

unfoldable pub read_share_config_hash : ℕ → M (Option ℕ)
unfolding read_column parse_hash
read_share_config_hash id = read_column id (λ r. ok (and_then r.config_hash parse_hash))

unfoldable pub mark_complete : ℕ → M (Unit {0})
unfolding update_share
mark_complete id = update_share id (λ r. record r { complete = some true })

unfoldable pub write_terminal_state : ℕ → Text → M (Unit {0})
unfolding update_share
write_terminal_state id state = update_share id (λ r. record r { terminal_state = some state })

-- The rows that the UPDATE of `write_outdated` changes.
abbrev pub differs : ℕ → Bool → ShareRow → Bool
differs id outdated r = r.id == id && (if outdated then not r.outdated else r.outdated)

unfoldable pub write_outdated : ℕ → Bool → M Bool
unfolding statement
write_outdated id outdated = statement (λ t. ok (
  any (differs id outdated) t.shares,
  record t {
    shares = update_where (differs id outdated) (λ r. record r { outdated = outdated }) t.shares;
  },
))

unfoldable pub read_joined_at : ℕ → M ℕ
unfolding read_column
read_joined_at id = read_column id (λ r. ok r.created_at)

unfoldable pub read_ca_certificates : Json → ℕ → M (List Text)
unfolding read_column
read_ca_certificates j id = read_column id (λ r. ok_or (j.from_json r.ca_certificates) bad_json)

unfoldable pub read_terminal_state : ℕ → M (Option Text)
unfolding read_column
read_terminal_state id = read_column id (λ r. ok r.terminal_state)

unfoldable pub read_outdated : ℕ → M Bool
unfolding read_column
read_outdated id = read_column id (λ r. ok r.outdated)

-- A column read as a u16.
abbrev as_u16 : Option ℕ → Result Error (Option ℕ)
as_u16 none = ok none
as_u16 (some n) = if ltb n 0x1_0000 then ok (some n) else err out_of_range

abbrev pub of_app : ℕ → Text → PortRow → Bool
of_app id app_id p = p.share == id && text_eq p.app_id app_id

unfoldable pub read_app_port : ℕ → Text → M (Option ℕ)
unfolding query text_eq
read_app_port id app_id =
    query (λ t. as_u16 (Option.map (λ (p : PortRow). p.port) (find (of_app id app_id) t.app_ports)))

abbrev pub has_share : ℕ → Tables → Bool
has_share id t = any (λ (r : ShareRow). r.id == id) t.shares

unfoldable pub upsert_port : ℕ → Text → ℕ → Tables → Result Error (Unit {0} × Tables)
unfolding text_eq
upsert_port id app_id port t =
    if any (of_app id app_id) t.app_ports
    then ok (
      tt,
      record t {
        app_ports = update_where (of_app id app_id) (λ p. record p { port = port }) t.app_ports;
      },
    )
    else if has_share id t
    then ok (
      tt,
      record t {
        app_ports = t.app_ports ++ (record { share = id; app_id = app_id; port = port } ∷ []);
      },
    )
    else err constraint

unfoldable pub write_app_port : ℕ → Text → ℕ → M (Unit {0})
unfolding statement upsert_port
write_app_port id app_id port = statement (upsert_port id app_id port)

unfoldable pub read_forward_proxy_port : ℕ → M (Option ℕ)
unfolding read_column
read_forward_proxy_port id = read_column id (λ r. as_u16 r.forward_proxy_port)

unfoldable pub write_forward_proxy_port : ℕ → ℕ → M (Unit {0})
unfolding update_share
write_forward_proxy_port id port =
    update_share id (λ r. record r { forward_proxy_port = some port })

unfoldable pub delete_row : ℕ → M (Unit {0})
unfolding statement
delete_row id = statement (λ t. ok (tt, delete_shares (λ r. r.id == id) t))

-- Run when the store is opened.
unfoldable pub clean_up_incomplete_rows : M (Unit {0})
unfolding statement
clean_up_incomplete_rows = statement (λ t. ok (tt, delete_shares (λ r. is_false r.complete) t))
