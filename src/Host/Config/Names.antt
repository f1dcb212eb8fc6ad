-- ===== src/Host/Config/Names.antt =====
-- waserver/src/config.rs, lines 397 to 430: ids, upstreams and the numbers in them.
use wispers_access.Prelude.Decimals.{decimal, digits_value, is_ascii_digit}
use wispers_access.Prelude.{
  ok_or-eq-ok, Bool, Bool-cases, Option, Result, Text, [], all, arith, bind-eq-ok, byte_len, codes,
  err, false, if◌then◌else◌, inl, inr, leb, ltb, none, not, ok, ok_or, refl, some, trim, true, ℕ,
  ◌&&◌, ◌++◌, ◌==◌, ◌>>=◌, ◌||◌, ◌∷◌, ◌≡◌,
}

is_ascii_alphanumeric : ℕ → Bool
unfolding is_ascii_digit
is_ascii_alphanumeric c = is_ascii_digit c || ((leb 65 c && leb c 90) || (leb 97 c && leb c 122))

unfoldable pub is_id_char : ℕ → Bool
unfolding is_ascii_alphanumeric
is_id_char c = is_ascii_alphanumeric c || (c == b'-' || c == b'_')

abbrev is_dash : ℕ → Bool
is_dash c = c == b'-' || c == b'_'

unfoldable pub starts_with_dash : Text → Bool
starts_with_dash [] = false
starts_with_dash (c ∷ s) = is_dash c

unfoldable pub ends_with_dash : Text → Bool
ends_with_dash [] = false
ends_with_dash (c ∷ []) = is_dash c
ends_with_dash (c ∷ d ∷ s) = ends_with_dash (d ∷ s)

abbrev pub is_blank : Text → Bool
is_blank [] = true
is_blank (c ∷ s) = false

unfoldable pub is_valid_id : Text → Bool
unfolding byte_len starts_with_dash ends_with_dash is_id_char
is_valid_id s =
    not (is_blank s)
    && (leb (byte_len s) 64
        && (all is_id_char s && (not (starts_with_dash s) && not (ends_with_dash s))))

-- `str::rsplit_once`.
unfoldable pub rsplit_once : ℕ → Text → Option (Text × Text)
rsplit_once sep [] = none
rsplit_once sep (c ∷ s) = elim (rsplit_once sep s) [
  | some r ↦ some (c ∷ r.0, r.1)
  | none ↦ if c == sep then some ([], s) else none
]

after_plus : Text → Text
after_plus [] = []
after_plus (c ∷ s) = if c == b'+' then s else c ∷ s

-- `u16::from_str`: digits after at most one `+`, of a value below 2 ^ 16.
unfoldable pub parse_u16 : Text → Option ℕ
unfolding digits_value after_plus
parse_u16 s =
    let digits = after_plus s in
    elim (digits_value 0 digits) [
      | none ↦ none
      | some n ↦ if is_blank digits then none else if ltb n 65536 then some n else none
    ]

pub data UpstreamError : Type 0 where
  empty_upstream no_colon bad_port port_zero : UpstreamError

or_localhost : Text → Text
or_localhost [] = codes "localhost"
or_localhost (c ∷ s) = c ∷ s

upstream_at : Text → ℕ → Result UpstreamError Text
unfolding or_localhost
upstream_at host port =
    if port == 0 then err port_zero else ok (or_localhost host ++ (codes ":" ++ decimal port))

unfoldable pub split_upstream : Option (Text × Text) → Result UpstreamError Text
unfolding upstream_at
split_upstream none = err no_colon
split_upstream (some r) = ok_or (parse_u16 r.1) bad_port >>= upstream_at r.0

unfoldable pub parse_upstream : Text → Result UpstreamError Text
unfolding split_upstream
parse_upstream s =
    let s' = trim s in
    if is_blank s' then err empty_upstream else split_upstream (rsplit_once b':' s')

-- A dial target: a host, a colon and the digits of a port.
pub IsUpstream : Text → Type 0
IsUpstream t =
    (host : Text) × (port : ℕ) × (is_blank host ≡ false)
    × (ltb 0 port ≡ true)
    × (ltb port 65536 ≡ true)
    × (t ≡ host ++ (codes ":" ++ decimal port))

parse_u16-bound : (s : Text) (n : ℕ) → parse_u16 s ≡ some n → ltb n 65536 ≡ true
unfolding parse_u16
parse_u16-bound s n h = ground arith

or_localhost-is_blank : (host : Text) → is_blank (or_localhost host) ≡ false
unfolding or_localhost
or_localhost-is_blank [] = refl
or_localhost-is_blank (c ∷ s) = refl

upstream_at-IsUpstream :
    (host : Text) (port : ℕ) (t : Text)
    → ltb port 65536 ≡ true
    → upstream_at host port ≡ ok t
    → IsUpstream t
unfolding upstream_at IsUpstream
upstream_at-IsUpstream host port t b h = elim (Bool-cases (port == 0)) [
  | inl e ↦ absurd (ground (arith, e, h))
  | inr e ↦ (
    or_localhost host,
    port,
    or_localhost-is_blank host,
    ground (arith, e),
    b,
    ground (arith, e, h),
  )
]

split_upstream-IsUpstream :
    (o : Option (Text × Text)) (t : Text) → split_upstream o ≡ ok t → IsUpstream t
unfolding split_upstream
split_upstream-IsUpstream none t h = cc h
split_upstream-IsUpstream (some r) t h =
    let (port, e, k) = bind-eq-ok (ok_or (parse_u16 r.1) bad_port) (upstream_at r.0) h in
    upstream_at-IsUpstream r.0 port t
      (parse_u16-bound r.1 port (ok_or-eq-ok (parse_u16 r.1) bad_port e)) k

-- A parsed upstream is a host that is not empty, a colon and a port from 1 to 65535.
pub parse_upstream-IsUpstream : (s t : Text) → parse_upstream s ≡ ok t → IsUpstream t
unfolding parse_upstream
parse_upstream-IsUpstream s t h = elim (Bool-cases (is_blank (trim s))) [
  | inl e ↦ absurd (ground (arith, e, h))
  | inr e ↦ split_upstream-IsUpstream (rsplit_once b':' (trim s)) t (rw (e, parse_upstream) at h)
]
