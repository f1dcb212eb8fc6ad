-- ===== src/Host/Config/Hash.antt =====
-- waserver/src/config.rs, lines 169 to 194 and 432 to 452: the hash of a config, 64-bit FNV-1a.
use wispers_access.Prelude.Decimals.{decimal}
use wispers_access.Host.Config.Types.{
  AppConfig, AppMode, ShareConfig, forward_proxy_to, reverse_proxy_to, wire_mode,
}
use wispers_access.Prelude.{
  arith, refl, true, ◌≡◌, List, Text, [], bit_xor, if◌then◌else◌, length, ltb, map, ℕ, ◌%◌, ◌*◌,
  ◌++◌, ◌+◌, ◌/◌, ◌^◌, ◌∷◌,
}
use wispers_access.Wire.Origin.{display}
use wispers_access.Wire.Share.{kind_str, mode_str}

unfoldable pub utf8 : ℕ → List ℕ
utf8 c =
    if ltb c 0x80
    then c ∷ []
    else if ltb c 0x800
    then (0xc0 + c / 64) ∷ (0x80 + c % 64) ∷ []
    else if ltb c 0x10000
    then (0xe0 + c / 4096) ∷ (0x80 + (c / 64) % 64) ∷ (0x80 + c % 64) ∷ []
    else (0xf0 + c / 262144)
      ∷ (0x80 + (c / 4096) % 64)
      ∷ (0x80 + (c / 64) % 64)
      ∷ (0x80 + c % 64)
      ∷ []

unfoldable pub as_bytes : Text → List ℕ
unfolding utf8
as_bytes [] = []
as_bytes (c ∷ s) = utf8 c ++ as_bytes s

unfoldable pub fnv_byte : ℕ → ℕ → ℕ
fnv_byte h b = (bit_xor h b * 0x100000001b3) % 2 ^ 64

unfoldable pub fnv_bytes : ℕ → List ℕ → ℕ
unfolding fnv_byte
fnv_bytes h [] = h
fnv_bytes h (b ∷ bs) = fnv_bytes (fnv_byte h b) bs

-- `Fnv1a::write`: the bytes, then a zero byte.
unfoldable pub fnv_write : ℕ → Text → ℕ
unfolding fnv_bytes as_bytes
fnv_write h s = fnv_bytes h (as_bytes s ++ (0 ∷ []))

unfoldable pub fnv_all : ℕ → List Text → ℕ
unfolding fnv_write
fnv_all h [] = h
fnv_all h (s ∷ ss) = fnv_all (fnv_write h s) ss

mode_texts : AppMode → List Text
unfolding display
mode_texts (reverse_proxy_to upstream) = upstream ∷ []
mode_texts (forward_proxy_to start_url origins) =
    start_url ∷ decimal (length origins) ∷ map (display decimal) origins

app_texts : AppConfig → List Text
unfolding mode_texts kind_str mode_str wire_mode
app_texts s = s.id ∷ s.name ∷ kind_str s.kind ∷ mode_str (wire_mode s.mode) ∷ mode_texts s.mode

apps_texts : List AppConfig → List Text
unfolding app_texts
apps_texts [] = []
apps_texts (s ∷ ss) = app_texts s ++ apps_texts ss

-- The texts that are written to the hash, in order.
unfoldable pub hashed_texts : ShareConfig → List Text
unfolding apps_texts
hashed_texts config = config.name ∷ (apps_texts config.apps ++ config.ca_certificates)

unfoldable pub config_hash : ShareConfig → ℕ
unfolding fnv_all hashed_texts
config_hash config = fnv_all 0xcbf29ce484222325 (hashed_texts config)

fnv_bytes-bound :
    (h : ℕ) (bs : List ℕ)
    → ltb h 0x1_0000_0000_0000_0000 ≡ true
    → ltb (fnv_bytes h bs) 0x1_0000_0000_0000_0000 ≡ true
unfolding fnv_bytes fnv_byte
fnv_bytes-bound h [] b = b
fnv_bytes-bound h (x ∷ bs) b = fnv_bytes-bound (fnv_byte h x) bs (ground arith)

fnv_all-bound :
    (h : ℕ) (texts : List Text)
    → ltb h 0x1_0000_0000_0000_0000 ≡ true
    → ltb (fnv_all h texts) 0x1_0000_0000_0000_0000 ≡ true
unfolding fnv_all fnv_write
fnv_all-bound h [] b = b
fnv_all-bound h (s ∷ texts) b =
    fnv_all-bound (fnv_write h s) texts (fnv_bytes-bound h (as_bytes s ++ (0 ∷ [])) b)

-- The hash of a config is below 2 ^ 64.
pub config_hash-bound :
    (config : ShareConfig) → ltb (config_hash config) 0x1_0000_0000_0000_0000 ≡ true
unfolding config_hash
config_hash-bound config = fnv_all-bound 0xcbf29ce484222325 (hashed_texts config) refl
