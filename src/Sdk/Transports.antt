-- ===== src/Sdk/Transports.antt =====
-- sdk/src/transports.rs, lines 127 to 175: what a check of a connection finds, and why a share
-- cannot be reached.
use wispers_access.Prelude.{Option, Text, codes, if◌then◌else◌, none, refl, some, text_eq, ◌≡◌}

pub data ConnectionCheck : Type 0 where
  no_connection alive dead : ConnectionCheck

pub data TerminalState : Type 0 where
  removed revoked : TerminalState

unfoldable pub as_str : TerminalState → Text
as_str removed = codes "removed"
as_str revoked = codes "revoked"

unfoldable pub parse : Text → Option TerminalState
unfolding text_eq
parse s =
    if text_eq s (codes "removed")
    then some removed
    else if text_eq s (codes "revoked")
    then some revoked
    else none

pub data TransportError : Type 0 where
  terminal : TerminalState → TransportError
  transient : TransportError

pub parse-as_str : (s : TerminalState) → parse (as_str s) ≡ some s
unfolding parse as_str
parse-as_str removed = refl
parse-as_str revoked = refl
