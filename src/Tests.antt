-- ===== src/Tests.antt =====
-- The theorems at concrete inputs.
pub mod Sample
mod OfStore
mod OfWire
mod OfHost
mod OfSdk
mod SdkSample
mod OfSdkStore
mod OfGuest
