-- ===== src/Sdk/Pairing.antt =====
-- sdk/src/pairing.rs, lines 26 to 97: the one-time tokens that pair a browser.
-- Random secrets, the clock and the end of time of `Instant` are given.
pub mod OneTime
use wispers_access.Prelude.{
  Bool, List, Option, Text, [], delete_where, false, find, if◌then◌else◌, leb, ltb, none, select,
  some, text_eq, true, ℕ, ◌++◌, ◌+◌, ◌∷◌,
}

-- A token with its expiry, or none for one that never expires.
abbrev pub Tokens : Type 0
Tokens = List (Text × Option ℕ)

abbrev pub is_token : Text → Text × Option ℕ → Bool
is_token token p = text_eq p.0 token

-- `expiry.is_none_or(|e| e > now)`.
unfoldable pub is_usable : ℕ → Option ℕ → Bool
is_usable now none = true
is_usable now (some e) = ltb now e

-- `Instant::checked_add`.
unfoldable pub checked_add : ℕ → ℕ → ℕ → Option ℕ
checked_add end_of_time now lifetime =
    if leb (now + lifetime) end_of_time then some (now + lifetime) else none

-- The two statements of `mint_token` that change the tokens.
unfoldable pub add_token : Text → ℕ → Option ℕ → Tokens → Tokens
add_token secret now expiry tokens =
    delete_where (is_token secret) (select (λ p. is_usable now p.1) tokens)
    ++ ((secret, expiry) ∷ [])

-- `mint_token` of a random secret at a time.
unfoldable pub mint_token : ℕ → ℕ → Text → ℕ → Tokens → Tokens
unfolding add_token checked_add
mint_token end_of_time lifetime secret now tokens =
    add_token secret now (checked_add end_of_time now lifetime) tokens

unfoldable pub consume_found : ℕ → Option (Text × Option ℕ) → Tokens → Bool × Tokens
unfolding is_usable
consume_found now none tokens = (false, tokens)
consume_found now (some minted) tokens =
    (is_usable now minted.1, delete_where (is_token minted.0) tokens)

unfoldable pub consume_token : Text → ℕ → Tokens → Bool × Tokens
unfolding consume_found
consume_token token now tokens = consume_found now (find (is_token token) tokens) tokens

-- A call, at a time.
pub data TokenCall : Type 0 where
  mint : (secret : Text) (now : ℕ) (expiry : Option ℕ) → TokenCall
  consume : (token : Text) (now : ℕ) → TokenCall

unfoldable pub token_call : TokenCall → Tokens → Tokens
unfolding add_token consume_token
token_call (mint secret now expiry) tokens = add_token secret now expiry tokens
token_call (consume token now) tokens = (consume_token token now tokens).1

unfoldable pub token_calls : List TokenCall → Tokens → Tokens
unfolding token_call
token_calls [] tokens = tokens
token_calls (c ∷ cs) tokens = token_calls cs (token_call c tokens)
