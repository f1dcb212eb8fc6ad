-- ===== src/Wire/Framing.antt =====
-- wire/src/lib.rs, lines 827 to 913: messages on a stream, a big-endian u32 length and then JSON.
-- `serde_json` is a parameter, `to_vec` and `from_slice` of a message type. A reader is the bytes
-- that the stream still has; `read_exact` fails when there are too few.
use wispers_access.Prelude.{
  ◌∙◌, ap, Bool-cases, List, Option, Result, [], ap, arith, drop, drop-length-append, err,
  if◌then◌else◌, inl, inr, leb, length, length-append, ltb, none, ok, ok_or, some, subst, take,
  take-length-append, true, ℕ, ◌%◌, ◌*◌, ◌++◌, ◌+◌, ◌/◌, ◌>>=◌, ◌^◌, ◌∷◌, ◌≡◌,
}

pub data FrameError : Type 0 where
  io decode : FrameError
  too_long : ℕ → FrameError

abbrev pub max_message_len : ℕ
max_message_len = 65536

unfoldable pub to_be_bytes : ℕ → List ℕ
to_be_bytes n = (n / 16777216) % 256 ∷ (n / 65536) % 256 ∷ (n / 256) % 256 ∷ n % 256 ∷ []

unfoldable pub read_u32 : List ℕ → Result FrameError (ℕ × List ℕ)
read_u32 (a ∷ b ∷ c ∷ d ∷ rest) = ok (a * 16777216 + (b * 65536 + (c * 256 + d)), rest)
read_u32 (a ∷ b ∷ c ∷ []) = err io
read_u32 (a ∷ b ∷ []) = err io
read_u32 (a ∷ []) = err io
read_u32 [] = err io

unfoldable pub read_exact : ℕ → List ℕ → Result FrameError (List ℕ × List ℕ)
read_exact n bytes = if leb n (length bytes) then ok (take n bytes, drop n bytes) else err io

module _ {A : Type 0} (to_vec : A → List ℕ) (from_slice : List ℕ → Option A) where
  -- `u32::try_from` panics at 2 ^ 32 bytes: none.
  unfoldable pub write_message : A → Option (List ℕ)
  unfolding to_be_bytes
  write_message msg =
      let bytes = to_vec msg in
      if ltb (length bytes) (2 ^ 32) then some (to_be_bytes (length bytes) ++ bytes) else none

  -- The buffer, and what it holds.
  read_body : ℕ → List ℕ → Result FrameError (A × List ℕ)
  unfolding read_exact
  read_body len bytes =
      if ltb max_message_len len
      then err (too_long len)
      else (read_exact len bytes >>= λ r. ok_or (from_slice r.0) decode >>= λ msg. ok (msg, r.1))

  unfoldable pub read_message : List ℕ → Result FrameError (A × List ℕ)
  unfolding read_u32 read_body
  read_message bytes = read_u32 bytes >>= λ r. read_body r.0 r.1

read_exact-append : (s rest : List ℕ) → read_exact (length s) (s ++ rest) ≡ ok (s, rest)
unfolding read_exact
read_exact-append s rest =
    rw (take-length-append s rest, drop-length-append s rest) (ground (arith, length-append s rest))

read_body-append :
    {A : Type 0} (to_vec : A → List ℕ) (from_slice : List ℕ → Option A) (msg : A) (rest : List ℕ)
    → from_slice (to_vec msg) ≡ some msg
    → read_body to_vec from_slice (length (to_vec msg)) (to_vec msg ++ rest) ≡ (
        if ltb max_message_len (length (to_vec msg))
        then err (too_long (length (to_vec msg)))
        else ok (msg, rest))
unfolding read_body
read_body-append to_vec from_slice msg rest j = rw (read_exact-append (to_vec msg) rest) (rw j)

be_bytes :
    (n : ℕ)
    → ltb n (2 ^ 32) ≡ true
    → (n / 16777216) % 256 * 16777216
        + ((n / 65536) % 256 * 65536 + ((n / 256) % 256 * 256 + n % 256))
      ≡ n
be_bytes n h = ground arith

read_u32-to_be_bytes :
    (n : ℕ) (rest : List ℕ)
    → ltb n (2 ^ 32) ≡ true
    → read_u32 (to_be_bytes n ++ rest) ≡ ok (n, rest)
unfolding read_u32 to_be_bytes
read_u32-to_be_bytes n rest h =
    ap {B = Result FrameError (ℕ × List ℕ)} (λ (m : ℕ). ok (m, rest)) (be_bytes n h)

-- A message that was written is read back, with what follows it left on the stream, if its JSON is
-- read back and has at most `max_message_len` bytes. A longer one is refused as too long.
pub read_message-write_message :
    {A : Type 0} (to_vec : A → List ℕ) (from_slice : List ℕ → Option A) (msg : A)
    (bytes rest : List ℕ)
    → from_slice (to_vec msg) ≡ some msg
    → write_message to_vec from_slice msg ≡ some bytes
    → read_message to_vec from_slice (bytes ++ rest) ≡ (
        if ltb max_message_len (length (to_vec msg))
        then err (too_long (length (to_vec msg)))
        else ok (msg, rest))
unfolding write_message read_message to_be_bytes
read_message-write_message to_vec from_slice msg bytes rest j w =
    elim (Bool-cases (ltb (length (to_vec msg)) (2 ^ 32))) [
      | inr e ↦ absurd (ground (arith, e, w))
      | inl e ↦
          let is : to_be_bytes (length (to_vec msg)) ++ to_vec msg ≡ bytes = ground (arith, e, w) in
          subst
            (λ (b : List ℕ). read_message to_vec from_slice (b ++ rest) ≡ (
              if ltb max_message_len (length (to_vec msg))
              then err (too_long (length (to_vec msg)))
              else ok (msg, rest)))
            is
            (ap
                (λ (r : Result FrameError (ℕ × List ℕ)).
                  r >>= λ p. read_body to_vec from_slice p.0 p.1)
                (read_u32-to_be_bytes (length (to_vec msg)) (to_vec msg ++ rest) e)
              ∙ read_body-append to_vec from_slice msg rest j)
    ]
