-- ===== src/Sdk/Client/Leave.antt =====
-- `leave` of sdk/src/lib.rs, lines 375 to 400 and 636 to 642, with `leave` of sdk/src/transports.rs,
-- iroh_transport.rs and wispers_connect_transport.rs.
use mathlib.Core.Option
use wispers_access.Prelude.{
  List, not, Bool, Option, Result, Text, any, delete_where, err, if◌then◌else◌, none, ok, some,
  text_eq, ℕ, ◌&&◌,
}
use wispers_access.Sdk.Client.{
  Device, J, SdkError, host_node, next, no_such_share, on_store, storage,
}
use wispers_access.Sdk.GuestCalls
use wispers_access.Sdk.GuestCalls.{CallError, Exchange}
use wispers_access.Sdk.Store.Rows.{
  delete_row, find_row, read_iroh_endpoint_id, read_transport_kind, read_wispers_connect_backend,
  share_id_of,
}
use wispers_access.Wire.Transport.{Transport, iroh, tailscale, wispers_connect}
pub mod Ends
pub mod Forgets

-- What a departure meets. Over iroh: whether the endpoint binds, whether a stream to the host opens
-- within the timeout, and the exchange with the host. Over Wispers Connect: what restoring the
-- node and its logout at the hub come to, on the secret store: none when they never end,
-- for the code sets them no timeout, or whether they succeed and the secrets then, which the crate
-- writes. Then whether secrets are deleted, and whether closing a restored guest node ends.
pub record Farewell : Type 0 where
  pub binds : Bool
  pub connects : Bool
  pub exchange : Exchange
  pub logout : List Text → Option (Bool × List Text)
  pub deletes : Bool
  pub closes : Bool

-- `Client::row`.
abbrev pub found_row : Text → Option ℕ → J ℕ
found_row key none d = (err (no_such_share key), d)
found_row key (some id) d = (ok id, d)

unfoldable pub row : Text → J ℕ
unfolding find_row
row key d = next (on_store storage (find_row key) d) (found_row key)

-- `Iroh::restore`.
unfoldable pub restored : Farewell → ℕ → Option Text → J (Unit {0})
unfolding share_id_of text_eq
restored bye id none d = (err host_node, d)
restored bye id (some host_hex) d = next (on_store host_node (share_id_of id) d) (λ share_id d.
    if any (text_eq share_id) d.secrets && bye.binds then (ok tt, d) else (err host_node, d))

unfoldable pub restore : Farewell → ℕ → J (Unit {0})
unfolding read_iroh_endpoint_id restored
restore bye id d = next (on_store host_node (read_iroh_endpoint_id id) d) (restored bye id)

abbrev told_host : Result CallError (Unit {0}) → Result SdkError (Unit {0})
told_host (ok u) = ok tt
told_host (err e) = err host_node

-- The attempt to tell the host, whose result is only logged.
unfoldable pub tell_host : Text → Farewell → ℕ → J (Unit {0})
unfolding restore GuestCalls.leave
tell_host version bye id d = next (restore bye id d) (λ _ d.
    (if bye.connects then told_host (GuestCalls.leave version bye.exchange) else err host_node, d))

abbrev pub forgotten : Farewell → Result SdkError Text × Device → Device
forgotten bye (ok share_id, d) =
    if bye.deletes then record d { secrets = delete_where (text_eq share_id) d.secrets } else d
forgotten bye (err e, d) = d

-- The share's secrets go, if its id is read and the secret store lets them.
unfoldable pub forget_secrets : Farewell → ℕ → Device → Device
unfolding share_id_of text_eq
forget_secrets bye id d = forgotten bye (on_store host_node (share_id_of id) d)

unfoldable pub iroh_leave : Text → Farewell → ℕ → Device → Device
unfolding tell_host forget_secrets
iroh_leave version bye id d = forget_secrets bye id (tell_host version bye id d).1

-- What is left when the attempt to log out has ended, none when it does not end.
abbrev pub logged_out : Option (Bool × List Text) → Device → Option Device
logged_out none d = none
logged_out (some (succeeds, secrets)) d = some (record d { secrets = secrets })

-- The attempt: the backend and the share's id are read before the node is restored.
abbrev pub at_hub : Farewell → Result SdkError Text × Device → Option Device
at_hub bye (ok share_id, d) = logged_out (bye.logout d.secrets) d
at_hub bye (err e, d) = some d

unfoldable pub wispers_connect_leave : Farewell → ℕ → Device → Option Device
unfolding read_wispers_connect_backend share_id_of forget_secrets
wispers_connect_leave bye id d = Option.map (forget_secrets bye id) (
    at_hub bye (
      next (on_store host_node (read_wispers_connect_backend id) d)
        (λ backend. on_store host_node (share_id_of id))))

-- What never ends is none.
abbrev pub L : Type 0 → Type 0
L A = Device → Option (Result SdkError A × Device)

abbrev pub ended : Device → Result SdkError (Unit {0}) × Device
ended d = (ok tt, d)

unfoldable pub leave_over : Text → Farewell → ℕ → Transport → L (Unit {0})
unfolding iroh_leave wispers_connect_leave
leave_over version bye id iroh d = some (ended (iroh_leave version bye id d))
leave_over version bye id wispers_connect d = Option.map ended (wispers_connect_leave bye id d)
leave_over version bye id tailscale d = some (ended d)

abbrev pub next_ending :
    {A B : Type 0} → Result SdkError A × Device → (A → L B) → Option (Result SdkError B × Device)
next_ending (ok a, d) k = k a d
next_ending (err e, d) k = some (err e, d)

-- `transports::leave`.
unfoldable pub transport_leave : Text → Farewell → ℕ → L (Unit {0})
unfolding read_transport_kind leave_over
transport_leave version bye id d =
    next_ending (on_store host_node (read_transport_kind id) d) (leave_over version bye id)

-- `Client::leave` once the row is found: the restored guest node is taken out and closed first.
unfoldable pub leave_row : Text → Farewell → Text → ℕ → L (Unit {0})
unfolding transport_leave delete_row text_eq
leave_row version bye key id d =
    let gone = record d { guest_nodes = delete_where (text_eq key) d.guest_nodes } in
    if any (text_eq key) d.guest_nodes && not bye.closes
    then none
    else Option.map (λ p. next p (λ _. on_store storage (delete_row id)))
        (transport_leave version bye id gone)

-- `Client::leave`.
unfoldable pub leave : Text → Farewell → Text → L (Unit {0})
unfolding row leave_row
leave version bye key d = next_ending (row key d) (leave_row version bye key)
