-- ===== src/Sdk/Store/KeepsCalls.antt =====
-- `write_deduped_hostname` and `write_share_info` of sdk/src/storage.rs, lines 138 to 168 and 242 to 275,
-- and a property of the tables that their statements keep.
use wispers_access.Prelude.{
  Bool-cases, List, Result, Text, [], byte_len, err, inl, inr, length, ltb, ok, some, suc, zero, ℕ,
  ◌∷◌, ◌≡◌,
}
use wispers_access.Sdk.Store.Db.{◌>>=◌, ◌>>◌, Error, M, Tables, pure, statement}
use wispers_access.Sdk.Store.Hostnames.{
  Attempt, after_claim, candidate, claimed, is_unique_violation, out_of_fuel, settle, too_long,
  try_candidates, write_deduped_hostname, write_deduped_hostname_within, write_hostname,
}
use wispers_access.Sdk.Store.Info.{
  app_row, delete_apps, insert_app, insert_apps, write_info_columns, write_share_info,
}
use wispers_access.Sdk.Store.Keeps.{
  Keeps, Keeps-bind, Keeps-read_column, Keeps-statement, Keeps-transaction,
}
use wispers_access.Sdk.Store.Rows.{Json, share_id_of}
use wispers_access.Wire.Share.{ShareInfo, SharedApp}

module _ (P : Tables → Type 0) (id : ℕ)
    (writes : (label : Text) → Keeps P (write_hostname id label)) where
  Keeps-after_claim :
      (label : Text) (again : M Attempt) (r : Result Error (Unit {0}))
      → Keeps P again
      → Keeps P (after_claim label again r)
  Keeps-after_claim label again (ok u) k d v = v
  Keeps-after_claim label again (err e) k d v = elim (Bool-cases (is_unique_violation e)) [
    | inl t ↦ rw t (k d v)
    | inr t ↦ rw t v
  ]

  Keeps-try_candidates : (fuel n : ℕ) (label : Text) → Keeps P (try_candidates fuel id label n)
  unfolding try_candidates
  Keeps-try_candidates zero n label d v = v
  Keeps-try_candidates (suc fuel) n label d v =
      let c = candidate label n in
      elim (Bool-cases (ltb 63 (byte_len c))) [
        | inl e ↦ rw (try_candidates, e) v
        | inr e ↦
            rw (try_candidates, e)
              (Keeps-after_claim c (try_candidates fuel id label (suc n)) (write_hostname id c d).0
                (Keeps-try_candidates fuel (suc n) label) (write_hostname id c d).1 (writes c d v))
      ]

  Keeps-settle : (share_id : Text) (a : Attempt) → Keeps P (settle id share_id a)
  Keeps-settle share_id (claimed label) = λ d v. v
  Keeps-settle share_id too_long =
      Keeps-bind P (write_hostname id share_id) (λ _. pure (some share_id)) (writes share_id)
        (λ _ d v. v)
  Keeps-settle share_id out_of_fuel = λ d v. v

  pub Keeps-write_deduped_hostname : (label : Text) → Keeps P (write_deduped_hostname id label)
  unfolding write_deduped_hostname write_deduped_hostname_within share_id_of
  Keeps-write_deduped_hostname label d v =
      let fuel = suc (length d.tables.shares) in
      Keeps-bind P (share_id_of id) (λ s. try_candidates fuel id label 1 >>= settle id s)
        (Keeps-read_column P id (λ r. ok r.share_id))
        (λ s.
          Keeps-bind P (try_candidates fuel id label 1) (settle id s)
            (Keeps-try_candidates fuel 1 label) (Keeps-settle s))
        d v

module _ (P : Tables → Type 0) (j : Json) (id : ℕ)
    (inserts : (position : ℕ) (a : SharedApp) (t t' : Tables) (u : Unit {0})
      → insert_app (app_row j id position a) t ≡ ok (u, t')
      → P t
      → P t')
    (columns : (info : ShareInfo) → Keeps P (write_info_columns j id info))
    (deletes : Keeps P (delete_apps id)) where
  Keeps-insert_apps :
      (position : ℕ) (apps : List SharedApp) → Keeps P (insert_apps j id position apps)
  unfolding insert_apps
  Keeps-insert_apps position [] = λ d v. v
  Keeps-insert_apps position (a ∷ apps) =
      Keeps-bind P (statement (insert_app (app_row j id position a)))
        (λ _. insert_apps j id (suc position) apps)
        (Keeps-statement P (insert_app (app_row j id position a)) (inserts position a))
        (λ _. Keeps-insert_apps (suc position) apps)

  pub Keeps-write_share_info : (info : ShareInfo) → Keeps P (write_share_info j id info)
  unfolding write_share_info
  Keeps-write_share_info info =
      let body = write_info_columns j id info >> delete_apps id in
      Keeps-transaction P (body >> insert_apps j id 0 info.apps) (
        Keeps-bind P body (λ _. insert_apps j id 0 info.apps)
          (Keeps-bind P (write_info_columns j id info) (λ _. delete_apps id) (columns info)
            (λ _. deletes))
          (λ _. Keeps-insert_apps 0 info.apps))
