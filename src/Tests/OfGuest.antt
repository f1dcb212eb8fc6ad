-- ===== src/Tests/OfGuest.antt =====
-- The theorems of the guest's node at concrete inputs.
use wispers_access.Sdk.Store.Db as SdkDb
use wispers_access.Host.Store.Db.{Tables}
use wispers_access.Wire.Transport.{Transport, from_str}
use wispers_access.Sdk.Proxy.{is_dns_label, is_label_char}
use wispers_access.Sdk.Store.Hostnames.{
  candidate, set_hostname, try_candidates, write_deduped_hostname, write_deduped_hostname_within,
  write_hostname,
}
use wispers_access.Sdk.Client.Labels.{label_for-IsDnsLabel}
use wispers_access.Sdk.Client.Leave
use wispers_access.Sdk.Client.Leave.{Farewell}
use wispers_access.Sdk.Client.Leave.Forgets.{leave-ends}
use wispers_access.Wire.Activation
use wispers_access.Host.GuestApi.{api_error}
use wispers_access.Sdk.Client.{
  trim_dashes, host_slug, label_for, Meeting, Device, SdkError, join, attempt, iroh_join,
  activated_join, join_error,
}
use wispers_access.Sdk.Client.Leftovers.{Restored}
use wispers_access.Sdk.Client.FailedJoin.{join-Restored}
use wispers_access.Sdk.GuestCalls.{activation_answer, refused_body, refusal}
use wispers_access.Sdk.Store.Db.{delete_shares, Db, Error}
use wispers_access.Sdk.Store.Rows.{share_id_of, find_row, new_row, insert_share, delete_row}
use wispers_access.Sdk.Store.Shares.{Share}
use wispers_access.Sdk.Store.Valid.{IsValid}
use wispers_access.Prelude.{
  is_some, ◌+◌, ◌==◌, utf8_len, arith, byte_len, select, all, Result, ℕ, true,
}
use wispers_access.Host.Config.Hash.{config_hash, config_hash-bound}
use wispers_access.Host.Config.Types.{ShareConfig}
use wispers_access.Host.GuestApi.{
  is_authorized, Body, Formats, Peer, StreamContext, activation_secret, share_info,
}
use wispers_access.Host.Store.Calls.{redeem_invite}
use wispers_access.Host.Store.Db as HostDb
use wispers_access.Sdk.Store.Db.{query, statement, transaction, with_faults, answer}
use wispers_access.Prelude.{
  Text, [], ap, codes, err, false, none, ok, refl, some, text_eq, ◌∷◌, ◌≡◌,
}
use wispers_access.Sdk.GuestCalls.{
  activate, fetch_info, guest_api_request, read_share, share_answer,
}
use wispers_access.Sdk.GuestCalls.WithHost.{activate-route, fetch_info-route, host, told}
use wispers_access.Sdk.GuestNode.{
  logged, Far, Node, after_open, dial_answer, dialed, fetched, open_stream_ungated, open_unless,
  refresh, stored,
}
use wispers_access.Sdk.GuestNode.Dead.{Steps-dead}
use wispers_access.Sdk.GuestNode.Dials.{dials}
use wispers_access.Sdk.GuestNode.Shared.{Shared, Steps, dials_out, enter, enters, here, ◌▸◌}
use wispers_access.Sdk.GuestNode.Stores.{refresh-stores}
use wispers_access.Sdk.GuestNode.Unchanged.{reaching, refresh-unchanged}
use wispers_access.Sdk.Store.Db.{read_column, update_share}
use wispers_access.Sdk.Store.Info.{
  app_of_row, apps_of, delete_apps, insert_app, insert_apps, order_by_position, read_apps,
  write_info_columns, write_share_info,
}
use wispers_access.Sdk.Store.Rows.{
  read_ca_certificates, read_joined_at, read_names, read_outdated, read_share_config_hash,
  read_terminal_state, read_transport_kind, write_outdated,
}
use wispers_access.Sdk.Store.Shares
use wispers_access.Sdk.Store.Shares.{read_state}
use wispers_access.Sdk.Transports.{alive, revoked, terminal, transient}
use wispers_access.Tests.Sample.{demo, invited, peer_a, secret}
use wispers_access.Tests.SdkSample.{
  codec, codec-ReadsBack, family, jellyfin_app, one, two, two_shares,
}
use wispers_access.Wire.ConfigHash.{hex16, parse_hash-hex16}

abbrev formats : Formats
formats = record { read_activation = λ bytes. some bytes; below_minimum = λ v. false }

abbrev config : ShareConfig
config = record { name = codes "Home"; apps = []; ca_certificates = []; legacy_transport = none }

abbrev ctx : StreamContext
ctx = record { config = config; transport = codes "iroh" }

abbrev guest : Peer
guest = record { peer_id = peer_a; user_id = some (codes "u") }

abbrev version : Text
version = codes "1.2.3"

fetch_info-route_example :
    fetch_info version (host demo formats ctx guest 0 (HostDb.with_faults [] invited) version) none
    ≡ ok (some (share_info ctx.config ctx.transport))
unfolding is_authorized
fetch_info-route_example =
    fetch_info-route demo formats ctx guest 0 (HostDb.with_faults [] invited) version none refl refl
      refl

abbrev stranger : Peer
stranger = record { peer_id = peer_a; user_id = none }

activate-route_example :
    activate version
      (host demo formats ctx stranger 5 (HostDb.with_faults [] invited) version)
      secret
    ≡ told demo formats ctx stranger 5
        (HostDb.with_faults [] invited)
        version
        (redeem_invite demo secret peer_a 5 (HostDb.with_faults [] invited)).0
unfolding activation_secret
activate-route_example =
    activate-route demo formats ctx stranger 5 (HostDb.with_faults [] invited) version secret secret
      refl refl

-- The share of a host, and the far end that turns the guest away.
abbrev away : Far
away = record {
  dial = err (terminal revoked);
  check = err transient;
  exchange = λ req. none;
  now = 9;
}

abbrev node : Node
node = record { row = 2; dead = none; last_used = some 5; db = with_faults [] two_shares; log = [] }

abbrev turned_away : Node
turned_away = record node { dead = some revoked }

-- Two calls passed the test of `dead`. One asked the transport and was turned away; the other asks
-- it now, and a third fails at the test.
abbrev overlapping : Shared
overlapping = record { node = turned_away; past = 1; dialing = 0; checking = 0 }

abbrev asked : Shared
asked = record overlapping { node = logged dialed turned_away; past = 0; dialing = 1 }

late_dial : Steps codec overlapping asked
unfolding enter
late_dial = enters overlapping ▸ (dials_out overlapping 0 refl ▸ (enters asked ▸ here asked))

Steps-dead_example :
    (is_some asked.node.dead ≡ true)
    × (dials asked.node.log + asked.past ≡ dials overlapping.node.log + overlapping.past)
Steps-dead_example = Steps-dead codec overlapping asked late_dial refl

-- A host that answers every request with a share.
abbrev answering : Far
answering = record {
  dial = ok tt;
  check = ok alive;
  exchange = λ req. some (record { status = 200; etag = none; body = Body.share family });
  now = 9;
}

refreshes : (refresh codec version answering node).0 ≡ ok (some family)
unfolding refresh open_stream_ungated open_unless dial_answer after_open fetched stored fetch_info
    guest_api_request share_answer read_share read_share_config_hash read_column query statement
    write_outdated write_share_info transaction write_info_columns update_share delete_apps
    insert_apps insert_app text_eq Shares.read_share read_names read_state read_terminal_state
    read_outdated read_transport_kind from_str read_apps read_ca_certificates read_joined_at apps_of
    order_by_position app_of_row codec
refreshes = refl

refresh-stores_example :
    (answer (read_apps codec 2) (refresh codec version answering node).1.db.tables
      ≡ ok (jellyfin_app ∷ []))
    × (answer (read_share_config_hash 2) (refresh codec version answering node).1.db.tables
        ≡ ok (some 7))
refresh-stores_example =
    refresh-stores codec codec-ReadsBack version answering node family two refl refl refreshes

abbrev current_node : Node
current_node = record node {
  db = with_faults [] (record two_shares {
    shares = record one { id = 2; config_hash = some (hex16 (config_hash config)) } ∷ [];
  });
}

refresh-unchanged_example :
    refresh codec version
      (reaching codec demo formats ctx guest 0 (HostDb.with_faults [] invited) version (ok alive) 9)
      current_node
    ≡ (ok none, record current_node { last_used = some 9; log = dialed ∷ [] })
unfolding read_share_config_hash read_column query statement is_authorized
refresh-unchanged_example =
    refresh-unchanged codec demo formats ctx guest 0 (HostDb.with_faults [] invited) version
      (ok alive) 9 current_node refl refl refl refl
      (ap ok (parse_hash-hex16 (config_hash config) (config_hash-bound config))) refl

-- The host turns the invite down.
abbrev late : Meeting
late = record {
  share_id = codes "s3";
  now = 9;
  connects = true;
  host_hex = codes "ab";
  exchange =
      λ req. some (record { status = 410; etag = none; body = api_error (codes "invite-expired") });
  body = [];
  saves = true;
  slugify = λ name. name;
}

abbrev device : Device
device = record { db = with_faults [] two_shares; secrets = []; told = []; guest_nodes = [] }

abbrev made : Result Error ℕ × Db
made = new_row (codes "s3") 9 (with_faults [] two_shares)

abbrev failed_join : Result SdkError Share × Device
failed_join = join codec version late device

makes : made ≡ (ok 3, made.1)
unfolding new_row statement insert_share text_eq
makes = refl

fails : failed_join ≡ (
  err (SdkError.invite_refused (codes "This invite has expired. Ask for a new one.")),
  failed_join.1,
)
unfolding join new_row statement insert_share text_eq attempt iroh_join activated_join activate
    guest_api_request activation_answer refused_body refusal Activation.parse join_error delete_row
fails = refl

join-Restored_example : Restored two_shares failed_join.1.db.tables
unfolding attempt iroh_join activated_join activate guest_api_request activation_answer new_row
    statement insert_share text_eq IsValid
join-Restored_example =
    join-Restored codec version late device failed_join.1
      (SdkError.invite_refused (codes "This invite has expired. Ask for a new one.")) 3 made.1
      ((refl, (refl, tt)), (refl, (refl, ((tt, refl), (tt, refl))))) makes refl fails

slug : Text → Text
slug name = select is_label_char name

all-slug : (name : Text) → all is_label_char (slug name) ≡ true
unfolding slug
all-slug [] = refl
all-slug (c ∷ name) = ground (arith, all-slug name)

abbrev labelled : Db
labelled =
    (write_deduped_hostname 2 (label_for slug family (codes "s2")) (with_faults [] two_shares)).1

labels :
    write_deduped_hostname 2 (label_for slug family (codes "s2")) (with_faults [] two_shares)
    ≡ (ok (some (codes "Family")), labelled)
unfolding label_for host_slug trim_dashes slug is_label_char write_deduped_hostname
    write_deduped_hostname_within share_id_of read_column query statement try_candidates candidate
    write_hostname set_hostname byte_len utf8_len text_eq
labels = refl

label_for-IsDnsLabel_example : is_dns_label (codes "Family") ≡ true
unfolding is_dns_label byte_len is_label_char utf8_len
label_for-IsDnsLabel_example =
    label_for-IsDnsLabel slug family 2 two (codes "Family") (with_faults [] two_shares) labelled
      all-slug refl refl labels

-- The host cannot be reached, the hub never answers, and the secrets stay.
abbrev offline : Farewell
offline = record {
  binds = true;
  connects = false;
  exchange = λ req. none;
  logout = λ secrets. none;
  deletes = false;
  closes = true;
}

abbrev over_iroh : SdkDb.Tables
over_iroh = record two_shares {
  shares = record one { transport = codes "iroh"; iroh_endpoint_id = some (codes "ab") } ∷ two ∷ [];
}

abbrev leaving : Device
leaving = record {
  db = with_faults [] over_iroh;
  secrets = codes "s1" ∷ [];
  told = [];
  guest_nodes = codes "s1" ∷ [];
}

leave-ends_example :
    (d' : Device) × (Leave.leave version offline (codes "s1") leaving ≡ some (ok tt, d'))
    × (d'.db.tables ≡ delete_shares (λ r. r.id == 1) over_iroh)
unfolding find_row query statement text_eq read_transport_kind read_column from_str
leave-ends_example =
    leave-ends over_iroh version offline (codes "s1") leaving 1 Transport.iroh refl
      (λ h. absurd (cc h)) refl refl refl

-- The hub turns the logout down, and the secrets are deleted.
abbrev refused_logout : Farewell
refused_logout = record offline { logout = λ secrets. some (false, secrets); deletes = true }
