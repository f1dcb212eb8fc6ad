-- ===== src/Sdk/Pairing/OneTime.antt =====
-- sdk/src/pairing.rs: a token among the calls about others.

-- A call about another token, at a time that is not after this one.
use wispers_access.Host.Store.Effects.{later}
use wispers_access.Prelude.{
  &&-eq-true, All, Bool, List, Option, Option-cases, Text, [], all, any, arith, delete_where, false,
  find, inl, inr, leb, none, not, refl, select, some, text_eq, text_eq_iff, true, ℕ, ◌&&◌, ◌++◌,
  ◌∷◌, ◌≡◌, ◌⊎◌,
}
use wispers_access.Prelude.Distinct.{any-delete_where}
use wispers_access.Prelude.Searches.{any_of_find, find-none, find_holds}
use wispers_access.Sdk.Pairing.{
  TokenCall, Tokens, consume, consume_found, consume_token, is_token, is_usable, mint, add_token,
  token_call, token_calls,
}

unfoldable pub is_other : Text → ℕ → TokenCall → Bool
is_other token at (mint secret now expiry) = not (text_eq token secret) && leb now at
is_other token at (consume other now) = not (text_eq token other) && leb now at

unfoldable pub mints_other : Text → TokenCall → Bool
mints_other token (mint secret now expiry) = not (text_eq secret token)
mints_other token (consume other now) = true

any-select :
    {A : Type 0} (p q : A → Bool) (xs : List A) → any q xs ≡ false → any q (select p xs) ≡ false
any-select p q [] h = refl
any-select p q (x ∷ xs) h = ground (arith, any-select p q xs)

any-append_one :
    {A : Type 0} (q : A → Bool) (xs : List A) (a : A)
    → any q xs ≡ false
    → q a ≡ false
    → any q (xs ++ (a ∷ [])) ≡ false
any-append_one q [] a h k = rw k
any-append_one q (x ∷ xs) a h k = ground (arith, any-append_one q xs a)

any-deleted : {A : Type 0} (q : A → Bool) (xs : List A) → any q (delete_where q xs) ≡ false
any-deleted q [] = refl
any-deleted q (x ∷ xs) = ground (arith, any-deleted q xs)

any-consume_found :
    (token : Text) (now : ℕ) (o : Option (Text × Option ℕ)) (ts : Tokens)
    → any (is_token token) ts ≡ false
    → any (is_token token) (consume_found now o ts).1 ≡ false
unfolding consume_found
any-consume_found token now none ts h = h
any-consume_found token now (some p) ts h =
    any-delete_where (λ a b. false) (is_token p.0) (is_token token) ts h

any-mints_other :
    (token : Text) (c : TokenCall) (ts : Tokens)
    → mints_other token c ≡ true
    → any (is_token token) ts ≡ false
    → any (is_token token) (token_call c ts) ≡ false
unfolding token_call add_token consume_token mints_other
any-mints_other token (mint secret now expiry) ts m h =
    any-append_one (is_token token) _ (secret, expiry)
      (any-delete_where (λ a b. false) (is_token secret) (is_token token) _
        (any-select _ (is_token token) ts h))
      (ground (arith, m))
any-mints_other token (consume other now) ts m h =
    any-consume_found token now (find (is_token other) ts) ts h

any-token_calls :
    (token : Text) (cs : List TokenCall) (ts : Tokens)
    → all (mints_other token) cs ≡ true
    → any (is_token token) ts ≡ false
    → any (is_token token) (token_calls cs ts) ≡ false
unfolding token_calls
any-token_calls token [] ts m h = h
any-token_calls token (c ∷ cs) ts m h =
    let (now, later) = &&-eq-true (mints_other token c) _ m in
    any-token_calls token cs (token_call c ts) later (any-mints_other token c ts now h)

any-consume_token :
    (token : Text) (now : ℕ) (ts : Tokens)
    → any (is_token token) (consume_token token now ts).1 ≡ false
unfolding consume_token consume_found
any-consume_token token now ts = elim (Option-cases (find (is_token token) ts)) [
  | inl e ↦ rw e (any_of_find (is_token token) ts e)
  | inr (p, e) ↦
      let same = (text_eq_iff p.0 token).0 (find_holds (is_token token) p ts e) in
      rw (e, same) (any-deleted (is_token token) ts)
]

-- A token that was presented, accepted or not, is refused at any time after, whatever calls come
-- between, unless the same token is minted again.
pub consume_token_once :
    (token : Text) (now at : ℕ) (ts : Tokens) (cs : List TokenCall)
    → all (mints_other token) cs ≡ true
    → (consume_token token at (token_calls cs (consume_token token now ts).1)).0 ≡ false
unfolding consume_token consume_found
consume_token_once token now at ts cs m = rw (
    find-none (is_token token) _
      (any-token_calls token cs (consume_token token now ts).1 m (any-consume_token token now ts)))

-- What is left of a minted token: none has another expiry, and it is there or no longer usable.
record Minted (token : Text) (expiry : Option ℕ) (at : ℕ) (ts : Tokens) : Type 0 where
  only : All (λ (p : Text × Option ℕ). text_eq p.0 token ≡ true → p.1 ≡ expiry) ts
  there : (find (is_token token) ts ≡ some (token, expiry)) ⊎ (is_usable at expiry ≡ false)
