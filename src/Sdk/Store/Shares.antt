-- ===== src/Sdk/Store/Shares.antt =====
-- sdk/src/storage.rs, lines 352 to 375, and sdk/src/lib.rs, lines 143 to 183: a share as the SDK
-- presents it.
use wispers_access.Prelude.{Bool, List, Option, Text, false, if◌then◌else◌, none, some, true, ℕ}
use wispers_access.Sdk.Store.Db.{◌>>=◌, M, pure}
use wispers_access.Sdk.Store.Info.{read_apps}
use wispers_access.Sdk.Store.Rows.{
  Json, read_ca_certificates, read_joined_at, read_names, read_outdated, read_terminal_state,
  read_transport_kind,
}
use wispers_access.Sdk.Transports.{TerminalState, parse}
use wispers_access.Wire.Share.{SharedApp}
use wispers_access.Wire.Transport.{Transport}

pub data ShareState : Type 0 where
  live outdated removed revoked : ShareState

unfoldable pub is_terminal : ShareState → Bool
is_terminal live = false
is_terminal outdated = false
is_terminal removed = true
is_terminal revoked = true

pub record Share : Type 0 where
  pub id : Text
  pub name : Text
  pub label : Text
  pub transport : Transport
  pub apps : List SharedApp
  pub ca_certificates : List Text
  pub state : ShareState
  pub joined_at : ℕ

abbrev parsed : Option Text → Option TerminalState
parsed none = none
parsed (some s) = parse s

-- The match of `read_share`; only its `None` arms read the column `outdated`.
abbrev pub share_state : ℕ → Option TerminalState → M ShareState
share_state id none = read_outdated id >>= λ o. pure (if o then outdated else live)
share_state id (some TerminalState.removed) = pure removed
share_state id (some TerminalState.revoked) = pure revoked

unfoldable pub read_state : ℕ → M ShareState
unfolding read_terminal_state read_outdated parse
read_state id = read_terminal_state id >>= λ s. share_state id (parsed s)

unfoldable pub read_share : Json → ℕ → M Share
unfolding read_names read_state read_transport_kind read_apps read_ca_certificates read_joined_at
read_share j id = read_names id >>= λ names. read_state id >>= λ state.
    read_transport_kind id >>= λ transport. read_apps j id >>= λ apps.
    read_ca_certificates j id >>= λ certificates. read_joined_at id >>= λ joined_at. pure record {
      id = names.0;
      name = names.1.0;
      label = names.1.1;
      transport = transport;
      apps = apps;
      ca_certificates = certificates;
      state = state;
      joined_at = joined_at;
    }
