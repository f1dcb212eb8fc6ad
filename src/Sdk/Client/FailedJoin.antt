-- ===== src/Sdk/Client/FailedJoin.antt =====
-- `join` of sdk/src/lib.rs, lines 283 to 318, with `iroh_transport::join`, when it fails.
use wispers_access.Prelude.{
  Bool-cases, Result, Text, ap, err, false, inl, inr, ok, subst, sym, ℕ, ◌∙◌, ◌≡◌,
}
use wispers_access.Sdk.Client.{
  Device, Meeting, SdkError, activated_join, attempt, host_node, iroh_join, join, next, on_store,
  record_join, save_key, settled, storage, stored_as,
}
use wispers_access.Sdk.Client.Besides.{Besides, Keeps-iroh, Keeps-record_join}
use wispers_access.Sdk.Client.Leftovers.{
  Restored, delete_row-Restored, insert_share-Besides, keeps_next, keeps_save_key, keeps_stored_as,
}
use wispers_access.Sdk.GuestCalls.{CallError, activate}
use wispers_access.Sdk.Store.Db.{◌>>◌, Db, Error, Tables, next_fault}
use wispers_access.Sdk.Store.Outcomes.{statement-ok}
use wispers_access.Sdk.Store.Rows.{
  Json, delete_row, insert_share, new_row, share_id_of, write_iroh_endpoint_id,
}
use wispers_access.Sdk.Store.Shares.{Share}
use wispers_access.Sdk.Store.Valid.{IsValid}
use wispers_access.Wire.Share.{ShareInfo}

module _ (id : ℕ) (before : Tables) where
  activated_join-keeps :
      (meets : Meeting) (r : Result CallError ShareInfo) (d : Device)
      → Besides id before d.db.tables
      → Besides id before (activated_join meets id r d).1.db.tables
  unfolding activated_join
  activated_join-keeps meets (err e) d b = b
  activated_join-keeps meets (ok info) d b =
      let P = Besides id before in
      keeps_next P
        (on_store host_node (write_iroh_endpoint_id id meets.host_hex >> share_id_of id) d)
        (save_key meets info)
        (keeps_stored_as P host_node
          ((write_iroh_endpoint_id id meets.host_hex >> share_id_of id) d.db) d
          (Keeps-iroh id before meets.host_hex d.db b))
        (λ share_id d b. keeps_save_key P meets info share_id d b)

  iroh_join-keeps :
      (version : Text) (meets : Meeting) (d : Device)
      → Besides id before d.db.tables
      → Besides id before (iroh_join version meets id d).1.db.tables
  unfolding iroh_join
  iroh_join-keeps version meets d b = elim (Bool-cases meets.connects) [
    | inl e ↦ rw e (activated_join-keeps meets (activate version meets.exchange meets.body) d b)
    | inr e ↦ rw e b
  ]

  attempt-keeps :
      (j : Json) (version : Text) (meets : Meeting) (d : Device)
      → Besides id before d.db.tables
      → Besides id before (attempt j version meets id d).1.db.tables
  unfolding attempt
  attempt-keeps j version meets d b =
      let P = Besides id before in
      keeps_next P (iroh_join version meets id d)
        (λ info. on_store storage (record_join j meets.slugify id info))
        (iroh_join-keeps version meets d b)
        (λ info d b.
          keeps_stored_as P storage (record_join j meets.slugify id info d.db) d
            (Keeps-record_join id before j meets.slugify info d.db b))

  settled-err :
      (r : Result SdkError Share × Device) (d' : Device) (e : SdkError)
      → settled id r ≡ (err e, d')
      → d'.db ≡ (delete_row id r.1.db).1
  settled-err (ok share, d) d' e h = absurd (cc h)
  settled-err (err x, d) d' e h = sym (ap (λ (p : Result SdkError Share × Device). p.1.db) h)

-- A join that fails after its row was made, for whatever reason and at whichever step, leaves the
-- tables of a store that met its constraints as they were, if the deletion of the row does not fail.
pub join-Restored :
    (j : Json) (version : Text) (meets : Meeting) (d d' : Device) (e : SdkError) (id : ℕ) (db : Db)
    → IsValid d.db.tables
    → new_row meets.share_id meets.now d.db ≡ (ok id, db)
    → next_fault (attempt j version meets id (record d { db = db })).1.db.faults ≡ false
    → join j version meets d ≡ (err e, d')
    → Restored d.db.tables d'.db.tables
unfolding join new_row
join-Restored j version meets d d' e id db v n f h =
    let made =
      insert_share-Besides meets.share_id meets.now id d.db.tables db.tables v
        (statement-ok (insert_share meets.share_id meets.now) d.db db id n) in
    let d1 = record d { db = db } in
    let tried = attempt j version meets id d1 in
    let kept = attempt-keeps id d.db.tables j version meets d1 made in
    let path : settled id tried ≡ (err e, d') =
      sym (
        ap
          (λ (p : Result Error ℕ × Db).
            next (stored_as storage p d) (λ id d. settled id (attempt j version meets id d)))
          n)
      ∙ h in
    subst (λ (db : Db). Restored d.db.tables db.tables)
      (sym (settled-err id d.db.tables tried d' e path))
      (delete_row-Restored id d.db.tables tried.1.db f kept)
