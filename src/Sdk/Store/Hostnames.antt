-- ===== src/Sdk/Store/Hostnames.antt =====
-- sdk/src/storage.rs, lines 138 to 168 and 461 to 473: the loop that claims a hostname label.
pub mod Ends
pub mod Loop
pub mod Claims
use wispers_access.Prelude.{
  Bool, Option, Result, Text, any, byte_len, err, false, if◌then◌else◌, length, ltb, none, not, ok,
  some, suc, text_eq, true, update_where, zero, ℕ, ◌&&◌, ◌++◌, ◌==◌, ◌∷◌,
}
use wispers_access.Prelude.Decimals.{to_decimal}
use wispers_access.Sdk.Store.Db.{
  ◌>>=◌, ◌>>◌, Error, M, ShareRow, Tables, bad_json, constraint, failure, no_rows, out_of_range,
  pure, statement, unknown_transport,
}
use wispers_access.Sdk.Store.Rows.{has_share, is_text, share_id_of}

-- `hostname`, then `hostname-2`, `hostname-3` and so on.
unfoldable pub candidate : Text → ℕ → Text
unfolding to_decimal
candidate hostname n = if n == 1 then hostname else hostname ++ (b'-' ∷ to_decimal n)

-- Another row that has the label.
abbrev pub taken_by : ℕ → Text → ShareRow → Bool
taken_by id label r = not (r.id == id) && is_text label r.hostname

unfoldable pub set_hostname : ℕ → Text → Tables → Result Error (Unit {0} × Tables)
unfolding text_eq
set_hostname id label t =
    if has_share id t && any (taken_by id label) t.shares
    then err constraint
    else ok (
      tt,
      record t {
        shares =
            update_where (λ (r : ShareRow). r.id == id) (λ r. record r { hostname = some label })
              t.shares;
      },
    )

unfoldable pub write_hostname : ℕ → Text → M (Unit {0})
unfolding statement set_hostname
write_hostname id label = statement (set_hostname id label)

abbrev pub is_unique_violation : Error → Bool
is_unique_violation constraint = true
is_unique_violation failure = false
is_unique_violation no_rows = false
is_unique_violation out_of_range = false
is_unique_violation bad_json = false
is_unique_violation (unknown_transport t) = false

-- How the loop ends. `out_of_fuel` is the model's own.
pub data Attempt : Type 0 where
  claimed : Text → Attempt
  too_long out_of_fuel : Attempt

abbrev pub after_claim : Text → M Attempt → Result Error (Unit {0}) → M Attempt
after_claim label again (ok u) d = (ok (claimed label), d)
after_claim label again (err e) d = if is_unique_violation e then again d else (err e, d)

unfoldable pub try_candidates : ℕ → ℕ → Text → ℕ → M Attempt
unfolding candidate write_hostname byte_len
try_candidates zero id hostname n d = (ok out_of_fuel, d)
try_candidates (suc fuel) id hostname n d =
    let again = try_candidates fuel id hostname (suc n) in
    let label = candidate hostname n in
    let tried = write_hostname id label d in
    if ltb 63 (byte_len label) then (ok too_long, d) else after_claim label again tried.0 tried.1

-- What the method returns; `none` when the model ran out of fuel.
abbrev pub settle : ℕ → Text → Attempt → M (Option Text)
settle id share_id (claimed label) = pure (some label)
settle id share_id too_long = write_hostname id share_id >> pure (some share_id)
settle id share_id out_of_fuel = pure none

unfoldable pub write_deduped_hostname_within : ℕ → ℕ → Text → M (Option Text)
unfolding share_id_of try_candidates write_hostname
write_deduped_hostname_within fuel id hostname =
    share_id_of id >>= λ share_id. try_candidates fuel id hostname 1 >>= settle id share_id

-- As many candidates as there are rows, and one more.
unfoldable pub write_deduped_hostname : ℕ → Text → M (Option Text)
unfolding write_deduped_hostname_within
write_deduped_hostname id hostname d =
    write_deduped_hostname_within (suc (length d.tables.shares)) id hostname d
