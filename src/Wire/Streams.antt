-- ===== src/Wire/Streams.antt =====
-- wire/src/lib.rs, lines 317 to 359 and 787 to 822: the first byte of a stream, the planes, and the
-- close codes of a connection.
use wispers_access.Prelude.{Option, if◌then◌else◌, none, refl, some, ℕ, ◌==◌, ◌≡◌}

pub data StreamType : Type 0 where
  reverse_proxy ctrl forward_proxy : StreamType

pub data Plane : Type 0 where
  data_plane control_plane : Plane

unfoldable pub plane : StreamType → Plane
plane reverse_proxy = data_plane
plane forward_proxy = data_plane
plane ctrl = control_plane

unfoldable pub stream_byte : StreamType → ℕ
stream_byte reverse_proxy = 0
stream_byte ctrl = 1
stream_byte forward_proxy = 2

pub data FirstByte : Type 0 where
  typed : StreamType → FirstByte
  unknown_type : ℕ → FirstByte

-- `From<u8> for FirstByte`.
unfoldable pub first_byte : ℕ → FirstByte
first_byte first =
    if first == 0
    then typed reverse_proxy
    else if first == 1
    then typed ctrl
    else if first == 2
    then typed forward_proxy
    else unknown_type first

pub data CloseCode : Type 0 where
  closing unknown revoked : CloseCode

unfoldable pub close_code : CloseCode → ℕ
close_code closing = 0
close_code unknown = 1
close_code revoked = 2

unfoldable pub from_code : ℕ → Option CloseCode
from_code n =
    if n == 0
    then some closing
    else if n == 1
    then some unknown
    else if n == 2
    then some revoked
    else none

-- The byte of a stream type and the code of a close are read back as what was written.
pub first_byte-stream_byte :
    (t : StreamType) (c : CloseCode)
    → (first_byte (stream_byte t) ≡ typed t) × (from_code (close_code c) ≡ some c)
unfolding first_byte stream_byte from_code close_code
first_byte-stream_byte reverse_proxy closing = (refl, refl)
first_byte-stream_byte reverse_proxy unknown = (refl, refl)
first_byte-stream_byte reverse_proxy revoked = (refl, refl)
first_byte-stream_byte ctrl closing = (refl, refl)
first_byte-stream_byte ctrl unknown = (refl, refl)
first_byte-stream_byte ctrl revoked = (refl, refl)
first_byte-stream_byte forward_proxy closing = (refl, refl)
first_byte-stream_byte forward_proxy unknown = (refl, refl)
first_byte-stream_byte forward_proxy revoked = (refl, refl)
