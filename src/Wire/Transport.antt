-- ===== src/Wire/Transport.antt =====
-- wire/src/lib.rs, lines 28 to 80: the transports, their full names and their tags.
use wispers_access.Prelude.{
  Option, Result, Text, codes, err, if◌then◌else◌, none, ok, refl, some, text_eq, ◌≡◌,
}

pub data Transport : Type 0 where
  wispers_connect iroh tailscale : Transport

-- `from_str`; the error carries the name.
unfoldable pub from_str : Text → Result Text Transport
unfolding text_eq
from_str name =
    if text_eq name (codes "wispers-connect")
    then ok wispers_connect
    else if text_eq name (codes "iroh")
    then ok iroh
    else if text_eq name (codes "tailscale")
    then ok tailscale
    else err name

unfoldable pub tag : Transport → Text
tag wispers_connect = codes "wc"
tag iroh = codes "iroh"
tag tailscale = codes "ts"

unfoldable pub as_str : Transport → Text
as_str wispers_connect = codes "wispers-connect"
as_str iroh = codes "iroh"
as_str tailscale = codes "tailscale"

unfoldable pub from_tag : Text → Option Transport
unfolding text_eq
from_tag t =
    if text_eq t (codes "wc")
    then some wispers_connect
    else if text_eq t (codes "iroh")
    then some iroh
    else if text_eq t (codes "ts")
    then some tailscale
    else none

-- Both names of a transport are read back as it.
pub from_str-as_str : (t : Transport) → (from_str (as_str t) ≡ ok t) × (from_tag (tag t) ≡ some t)
unfolding from_str as_str from_tag tag
from_str-as_str wispers_connect = (refl, refl)
from_str-as_str iroh = (refl, refl)
from_str-as_str tailscale = (refl, refl)
