-- ===== src/Sdk/Store/InfoLaws.antt =====
-- `write_share_info` and the reads of what it wrote, sdk/src/storage.rs, lines 242 to 311.
use wispers_access.Prelude.{
  List, [], ap, append-nil, arith, delete_where, err, false, find, ltb, map, ok, ok_or, refl,
  select, some, suc, true, update_where, ℕ, ◌++◌, ◌==◌, ◌∙◌, ◌∷◌, ◌≡◌,
}
use wispers_access.Sdk.Store.Db.{
  ◌>>◌, AppRow, Db, Error, ShareRow, Tables, answer, bad_json, query, statement, update_share,
}
use wispers_access.Sdk.Store.Info.{
  app_of_row, apps_of, delete_apps, insert_apps, order_by_position, read_apps, write_info_columns,
  write_share_info,
}
use wispers_access.Sdk.Store.Outcomes.{
  bind-ok, read_column-answer, total_statement-ok, transaction-err, transaction-ok, update_share-ok,
}
use wispers_access.Sdk.Store.Replaced.{
  app_rows, insert_apps-appends, map-app_rows, of_share, order-app_rows, select-app_rows,
  select-append, select-deleted,
}
use wispers_access.Sdk.Store.Rows.{
  Json, ReadsBack, and_then, or_blank, read_ca_certificates, read_names, read_share_config_hash,
}
use wispers_access.Wire.ConfigHash.{hex16, parse_hash, parse_hash-hex16}
use wispers_access.Wire.Share.{ShareInfo, SharedApp}

abbrev informed : Json → ShareInfo → ShareRow → ShareRow
informed j info r = record r {
  display_name = some info.name;
  config_hash = some (hex16 info.config_hash);
  ca_certificates = j.to_json info.ca_certificates;
}

-- What `write_share_info` makes of the tables.
replaced : Json → ℕ → ShareInfo → Tables → Tables
unfolding hex16
replaced j id info t = record t {
  shares = update_where (λ (r : ShareRow). r.id == id) (informed j info) t.shares;
  apps = delete_where (of_share id) t.apps ++ app_rows j id 0 info.apps;
}

write_share_info-replaces :
    (j : Json) (id : ℕ) (info : ShareInfo) (d d' : Db)
    → write_share_info j id info d ≡ (ok tt, d')
    → d'.tables ≡ replaced j id info d.tables
unfolding write_share_info replaced write_info_columns delete_apps update_share
write_share_info-replaces j id info d d' h =
    let columns = write_info_columns j id info in
    let body = columns >> delete_apps id >> insert_apps j id 0 info.apps in
    let (d1, (same, (d2, (e, last)))) = transaction-ok body d d' tt h in
    let (u, (d3, (e3, k3))) =
      bind-ok (columns >> delete_apps id) (λ _. insert_apps j id 0 info.apps) d1 e in
    let (v, (d4, (e4, k4))) = bind-ok columns (λ _. delete_apps id) d1 e3 in
    let t4 = update_share-ok id (informed j info) d1 d4 e4 in
    let t3 =
      total_statement-ok (λ t. (tt, record t { apps = delete_where (of_share id) t.apps })) d4 d3 tt
        k4 in
    let t2 = insert_apps-appends j id 0 info.apps d3 d2 k3 in
    last
    ∙ (t2
        ∙ (ap (λ (t : Tables). record t { apps = t.apps ++ app_rows j id 0 info.apps }) t3
            ∙ (ap
                  (λ (t : Tables). record t {
                    apps = delete_where (of_share id) t.apps ++ app_rows j id 0 info.apps;
                  })
                  t4
                ∙ ap (replaced j id info) same)))

pub find-update_found :
    (f : ShareRow → ShareRow) (id : ℕ) (r : ShareRow) (rows : List ShareRow)
    → ((r : ShareRow) → (f r).id ≡ r.id)
    → find (λ (r : ShareRow). r.id == id) rows ≡ some r
    → find (λ (r : ShareRow). r.id == id) (update_where (λ (r : ShareRow). r.id == id) f rows)
      ≡ some (f r)
find-update_found f id r [] keep h = absurd (cc h)
find-update_found f id r (x ∷ rows) keep h =
    ground (arith, keep x, find-update_found f id r rows keep)

not_of_share :
    (j : Json) (id other position : ℕ) (apps : List SharedApp)
    → (id == other) ≡ false
    → select (of_share other) (app_rows j id position apps) ≡ []
unfolding app_rows
not_of_share j id other position [] h = refl
not_of_share j id other position (a ∷ apps) h =
    rw (h, not_of_share j id other (suc position) apps h)

select-delete_where_other :
    (id other : ℕ) (rows : List AppRow)
    → (id == other) ≡ false
    → select (of_share other) (delete_where (of_share id) rows) ≡ select (of_share other) rows
select-delete_where_other id other [] h = refl
select-delete_where_other id other (a ∷ rows) h =
    ground (arith, select-delete_where_other id other rows h)

apps_of-replaced :
    (j : Json) (back : ReadsBack j) (id : ℕ) (info : ShareInfo) (t : Tables)
    → apps_of j id (replaced j id info t) ≡ info.apps
unfolding apps_of replaced
apps_of-replaced j back id info t =
    ap (λ l. map (app_of_row j) (order_by_position l))
      (select-append id (delete_where (of_share id) t.apps) (app_rows j id 0 info.apps)
        ∙ (ap (λ l. l ++ select (of_share id) (app_rows j id 0 info.apps))
              (select-deleted id t.apps)
            ∙ select-app_rows j id 0 info.apps))
    ∙ (ap (map (app_of_row j)) (order-app_rows j id 0 info.apps)
        ∙ map-app_rows j back id 0 info.apps)

apps_of-replaced_other :
    (j : Json) (id other : ℕ) (info : ShareInfo) (t : Tables)
    → (id == other) ≡ false
    → apps_of j other (replaced j id info t) ≡ apps_of j other t
unfolding apps_of replaced
apps_of-replaced_other j id other info t h =
    ap (λ l. map (app_of_row j) (order_by_position l))
      (select-append other (delete_where (of_share id) t.apps) (app_rows j id 0 info.apps)
        ∙ (ap (λ l. select (of_share other) (delete_where (of_share id) t.apps) ++ l)
              (not_of_share j id other 0 info.apps h)
            ∙ (append-nil (select (of_share other) (delete_where (of_share id) t.apps))
                ∙ select-delete_where_other id other t.apps h)))

share_with_id-replaced :
    (j : Json) (id : ℕ) (info : ShareInfo) (t : Tables) (r : ShareRow)
    → find (λ (r : ShareRow). r.id == id) t.shares ≡ some r
    → find (λ (r : ShareRow). r.id == id) (replaced j id info t).shares ≡ some (informed j info r)
unfolding replaced
share_with_id-replaced j id info t r h =
    find-update_found (informed j info) id r t.shares (λ r. refl) h

-- When a share's row is there and `write_share_info` succeeds, the reads that follow and do not
-- fail return the apps in their order, the 64-bit config hash, the certificates and the name
-- that were written, for a JSON codec that reads back what it writes.
pub write_share_info-read :
    (j : Json) (back : ReadsBack j) (id : ℕ) (info : ShareInfo) (r : ShareRow) (d d' : Db)
    → ltb info.config_hash 0x1_0000_0000_0000_0000 ≡ true
    → find (λ (r : ShareRow). r.id == id) d.tables.shares ≡ some r
    → write_share_info j id info d ≡ (ok tt, d')
    → (answer (read_apps j id) d'.tables ≡ ok info.apps)
      × ((answer (read_share_config_hash id) d'.tables ≡ ok (some info.config_hash))
          × ((answer (read_ca_certificates j id) d'.tables ≡ ok info.ca_certificates)
              × (answer (read_names id) d'.tables
                  ≡ ok (r.share_id, (info.name, or_blank r.hostname)))))
unfolding read_apps read_share_config_hash read_ca_certificates read_names query statement
write_share_info-read j back id info r d d' b f h =
    let e = write_share_info-replaces j id info d d' h in
    let g = share_with_id-replaced j id info d.tables r f in
    let t = replaced j id info d.tables in
    let after_write = informed j info r in
    rw e (
      ap ok (apps_of-replaced j back id info d.tables),
      (
        read_column-answer id (λ r. ok (and_then r.config_hash parse_hash)) t after_write g
            ∙ ap ok (parse_hash-hex16 info.config_hash b),
        (
          read_column-answer id (λ r. ok_or (j.from_json r.ca_certificates) bad_json) t after_write
                g
              ∙ ap (λ o. ok_or o bad_json) (back info.ca_certificates),
          read_column-answer id
              (λ r. ok (r.share_id, (or_blank r.display_name, or_blank r.hostname))) t after_write
              g,
        ),
      ),
    )

-- `write_share_info` of one share leaves the apps of every other as they were.
pub write_share_info-other :
    (j : Json) (id other : ℕ) (info : ShareInfo) (d d' : Db)
    → (id == other) ≡ false
    → write_share_info j id info d ≡ (ok tt, d')
    → answer (read_apps j other) d'.tables ≡ answer (read_apps j other) d.tables
unfolding read_apps query statement
write_share_info-other j id other info d d' n h =
    ap (answer (read_apps j other)) (write_share_info-replaces j id info d d' h)
    ∙ ap ok (apps_of-replaced_other j id other info d.tables n)

-- A `write_share_info` that fails leaves every table as it was, at whichever of its statements it
-- fails.
pub write_share_info-err :
    (j : Json) (id : ℕ) (info : ShareInfo) (e : Error) (d d' : Db)
    → write_share_info j id info d ≡ (err e, d')
    → d'.tables ≡ d.tables
unfolding write_share_info
write_share_info-err j id info e d d' h =
    transaction-err (write_info_columns j id info >> delete_apps id >> insert_apps j id 0 info.apps)
      d d' e h
