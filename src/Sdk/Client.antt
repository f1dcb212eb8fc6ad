-- ===== src/Sdk/Client.antt =====
-- sdk/src/lib.rs, lines 283 to 318, 607 to 623 and 728 to 737, and sdk/src/iroh_transport.rs, lines 22 to
-- 50: joining a share by an iroh invite.
pub mod Besides
pub mod Leftovers
pub mod FailedJoin
pub mod Labels
pub mod Leave
use wispers_access.Host.Config.Names.{is_blank}
use wispers_access.Prelude.{
  Bool, List, Option, Result, Text, [], delete_where, err, if◌then◌else◌, none, ok, some, take, ℕ,
  ◌&&◌, ◌++◌, ◌==◌, ◌||◌, ◌∷◌,
}
use wispers_access.Sdk.GuestCalls.{
  CallError, Exchange, activate, activation_refused, failed, too_old, unexpected,
}
use wispers_access.Sdk.Store.Db.{◌>>=◌, ◌>>◌, Db, Error, M}
use wispers_access.Sdk.Store.Hostnames.{write_deduped_hostname}
use wispers_access.Sdk.Store.Info.{write_share_info}
use wispers_access.Sdk.Store.Rows.{
  Json, delete_row, mark_complete, new_row, share_id_of, write_display_name, write_iroh_endpoint_id,
}
use wispers_access.Sdk.Store.Shares.{Share, read_share}
use wispers_access.Wire.Share.{ShareInfo}

-- `SdkError`, without its messages but for that of a refusal.
pub data SdkError : Type 0 where
  invalid_invite storage host_node client_too_old port_in_use internal : SdkError
  invite_refused no_such_share : Text → SdkError

-- What a device keeps: its store, the shares with secrets in its secret store, what the observer was
-- told, and the shares whose guest nodes were restored.
pub record Device : Type 0 where
  pub db : Db
  pub secrets : List Text
  pub told : List Share
  pub guest_nodes : List Text

-- What a join meets: the id that is minted and the clock, whether the host's endpoint id is valid
-- and a stream to it opens, the host's id in hex, the exchange with the host, the body with the
-- invite's secret, whether the secret store takes the key, and the `slug` crate.
pub record Meeting : Type 0 where
  pub share_id : Text
  pub now : ℕ
  pub connects : Bool
  pub host_hex : Text
  pub exchange : Exchange
  pub body : List ℕ
  pub saves : Bool
  pub slugify : Text → Text

abbrev pub J : Type 0 → Type 0
J A = Device → Result SdkError A × Device

abbrev pub next :
    {A B : Type 0} → Result SdkError A × Device → (A → J B) → Result SdkError B × Device
next (ok a, d) k = k a d
next (err e, d) k = (err e, d)

-- A call of the store, whose error becomes `e`.
abbrev pub stored_as :
    {A : Type 0} → SdkError → Result Error A × Db → Device → Result SdkError A × Device
stored_as e (ok a, db) d = (ok a, record d { db = db })
stored_as e (err _, db) d = (err e, record d { db = db })

abbrev pub on_store : {A : Type 0} → SdkError → M A → J A
on_store e m d = stored_as e (m d.db) d

-- `join`'s `map_err`.
unfoldable pub join_error : CallError → SdkError
join_error too_old = client_too_old
join_error (CallError.invite_refused why) = invite_refused why
join_error failed = host_node
join_error (unexpected status) = host_node
join_error (activation_refused code) = host_node

unfoldable pub save_key : Meeting → ShareInfo → Text → J ShareInfo
save_key meets info share_id d =
    if meets.saves
    then (ok info, record d { secrets = d.secrets ++ (share_id ∷ []) })
    else (err host_node, d)

unfoldable pub activated_join : Meeting → ℕ → Result CallError ShareInfo → J ShareInfo
unfolding join_error write_iroh_endpoint_id share_id_of save_key
activated_join meets id (err e) d = (err (join_error e), d)
activated_join meets id (ok info) d =
    next (on_store host_node (write_iroh_endpoint_id id meets.host_hex >> share_id_of id) d)
      (save_key meets info)

-- `iroh_transport::join`.
unfoldable pub iroh_join : Text → Meeting → ℕ → J ShareInfo
unfolding activate activated_join
iroh_join version meets id d =
    if meets.connects
    then activated_join meets id (activate version meets.exchange meets.body) d
    else (err host_node, d)

-- A label for a name: without apostrophes, made a slug, of at most 63 characters, without a dash at
-- the end.
abbrev pub is_apostrophe : ℕ → Bool
is_apostrophe c = c == 0x27 || c == 0x2019

unfoldable pub trim_dashes : Text → Text
trim_dashes [] = []
trim_dashes (c ∷ s) =
    let rest = trim_dashes s in if is_blank rest && c == b'-' then [] else c ∷ rest

unfoldable pub host_slug : (Text → Text) → Text → Option Text
unfolding trim_dashes
host_slug slugify name =
    let s = trim_dashes (take 63 (slugify (delete_where is_apostrophe name))) in
    if is_blank s then none else some s

abbrev pub or_else : Option Text → Text → Text
or_else none t = t
or_else (some s) t = s

abbrev pub shown_name : ShareInfo → Text → Text
shown_name info share_id = if is_blank info.name then share_id else info.name

unfoldable pub label_for : (Text → Text) → ShareInfo → Text → Text
unfolding host_slug
label_for slugify info share_id = or_else (host_slug slugify (shown_name info share_id)) share_id

-- `record_join`.
unfoldable pub record_join : Json → (Text → Text) → ℕ → ShareInfo → M Share
unfolding share_id_of write_share_info write_display_name label_for write_deduped_hostname
    mark_complete read_share
record_join j slugify id info = share_id_of id >>= λ share_id.
    write_share_info j id info
    >> (write_display_name id (shown_name info share_id)
        >> (write_deduped_hostname id (label_for slugify info share_id)
            >> (mark_complete id >> read_share j id)))

-- How a join ends: the observer is told, or the row is deleted, whether that works or not.
abbrev pub settled : ℕ → Result SdkError Share × Device → Result SdkError Share × Device
settled id (ok share, d) = (ok share, record d { told = d.told ++ (share ∷ []) })
settled id (err e, d) = (err e, record d { db = (delete_row id d.db).1 })

unfoldable pub attempt : Json → Text → Meeting → ℕ → J Share
unfolding iroh_join record_join
attempt j version meets id d =
    next (iroh_join version meets id d)
      (λ info. on_store storage (record_join j meets.slugify id info))

-- `join`, for an iroh invite.
unfoldable pub join : Json → Text → Meeting → J Share
unfolding new_row attempt delete_row
join j version meets d =
    next (on_store storage (new_row meets.share_id meets.now) d)
      (λ id d. settled id (attempt j version meets id d))
