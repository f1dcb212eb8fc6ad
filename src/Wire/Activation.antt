-- ===== src/Wire/Activation.antt =====
-- wire/src/lib.rs, lines 472 to 516: why an activation was refused, its HTTP status and its name.
use wispers_access.Prelude.{ℕ, Text, codes, text_eq, Option, none, some, if◌then◌else◌}

pub data ActivationError : Type 0 where
  malformed invite_unknown invite_expired invite_consumed revoked already_guest : ActivationError

unfoldable pub status : ActivationError → ℕ
status malformed = 400
status invite_unknown = 403
status revoked = 403
status invite_expired = 410
status invite_consumed = 409
status already_guest = 409

unfoldable pub as_str : ActivationError → Text
as_str malformed = codes "malformed"
as_str invite_unknown = codes "invite-unknown"
as_str invite_expired = codes "invite-expired"
as_str invite_consumed = codes "invite-consumed"
as_str revoked = codes "revoked"
as_str already_guest = codes "already-guest"

-- The serde names are the variants in kebab-case.
unfoldable pub parse : Text → Option ActivationError
unfolding text_eq
parse s =
    if text_eq s (codes "malformed")
    then some malformed
    else if text_eq s (codes "invite-unknown")
    then some invite_unknown
    else if text_eq s (codes "invite-expired")
    then some invite_expired
    else if text_eq s (codes "invite-consumed")
    then some invite_consumed
    else if text_eq s (codes "revoked")
    then some revoked
    else if text_eq s (codes "already-guest")
    then some already_guest
    else none
