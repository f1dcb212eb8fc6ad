-- ===== src/Sdk/GuestNode/Stores.antt =====
-- What `refresh` of sdk/src/guest_node.rs, lines 148 to 180, stores and returns.
use wispers_access.Prelude.{
  Bool, List, Option, Result, Text, any, ap, err, false, find, if◌then◌else◌, ltb, ok, refl, some,
  subst, sym, true, update_where, ℕ, ◌==◌, ◌∙◌, ◌≡◌,
}
use wispers_access.Prelude.Searches.{find-update_where}
use wispers_access.Sdk.GuestCalls.{fetch_info}
use wispers_access.Sdk.GuestNode.{
  Far, Node, RefreshError, after_open, fetched, open_stream_ungated, refresh,
}
use wispers_access.Sdk.GuestNode.Refreshed.{fetched-ok, open_unless-db, with_db-ok}
use wispers_access.Sdk.Store.Db.{Db, ShareRow, Tables, answer, with_shares}
use wispers_access.Sdk.Store.Info.{read_apps, write_share_info}
use wispers_access.Sdk.Store.InfoLaws.{write_share_info-read}
use wispers_access.Sdk.Store.Outcomes.{read_column-ok, total_statement-ok}
use wispers_access.Sdk.Store.Rows.{Json, ReadsBack, differs, read_share_config_hash, write_outdated}
use wispers_access.Sdk.Transports.{TransportError, terminal, transient}
use wispers_access.Wire.Share.{ShareInfo}
use mathlib.Core.Option

module _ (j : Json) where
  after_open-ok :
      (version : Text) (far : Far) (opened : Result TransportError (Unit {0})) (n : Node)
      (info : ShareInfo)
      → (after_open j version far opened n).0 ≡ ok (some info)
      → (opened ≡ ok tt)
        × ((known : Option ℕ) × ((db : Db) × ((read_share_config_hash n.row n.db ≡ (ok known, db))
                × (after_open j version far opened n
                    ≡ fetched j n.row
                        (fetch_info version far.exchange known)
                        (record n { db = db })))))
  unfolding after_open
  after_open-ok version far (err (terminal s)) n info h = absurd (cc h)
  after_open-ok version far (err transient) n info h = absurd (cc h)
  after_open-ok version far (ok stream) n info h =
      let (known, (db, (e, k))) =
        with_db-ok j (read_share_config_hash n.row n.db)
          (λ known. fetched j n.row (fetch_info version far.exchange known)) n h in
      (refl, (known, (db, (e, k))))

  -- The row as `write_outdated` leaves it.
  abbrev current : ℕ → ShareRow → ShareRow
  current id r = if differs id false r then record r { outdated = false } else r

  find-current :
      (id : ℕ) (r : ShareRow) (rows : List ShareRow)
      → find (λ (x : ShareRow). x.id == id) rows ≡ some r
      → find
          (λ (x : ShareRow). x.id == id)
          (update_where (differs id false) (λ r. record r { outdated = false }) rows)
        ≡ some (current id r)
  find-current id r rows h =
      find-update_where (λ (x : ShareRow). x.id == id) (differs id false)
        (λ r. record r { outdated = false }) rows (λ x. refl)
      ∙ ap (Option.map (current id)) h

  Stored : ℕ → ShareInfo → Tables → Type 0
  Stored row info t =
      (answer (read_apps j row) t ≡ ok info.apps)
      × (answer (read_share_config_hash row) t ≡ ok (some info.config_hash))

  recorded-Stored :
      (back : ReadsBack j) (row : ℕ) (info : ShareInfo) (r : ShareRow) (u : Bool) (db db2 db3 : Db)
      → ltb info.config_hash 0x1_0000_0000_0000_0000 ≡ true
      → find (λ (x : ShareRow). x.id == row) db.tables.shares ≡ some r
      → write_outdated row false db ≡ (ok u, db2)
      → write_share_info j row info db2 ≡ (ok tt, db3)
      → Stored row info db3.tables
  unfolding write_outdated Stored
  recorded-Stored back row info r u db db2 db3 b f e2 e3 =
      let mark : Tables → Bool × Tables = λ t. (
        any (differs row false) t.shares,
        with_shares (differs row false) (λ r. record r { outdated = false }) t,
      ) in
      let t2 = total_statement-ok mark db db2 u e2 in
      let f2 : find (λ (x : ShareRow). x.id == row) db2.tables.shares ≡ some (current row r) =
        ap (λ (t : Tables). find (λ (x : ShareRow). x.id == row) t.shares) t2
        ∙ find-current row r db.tables.shares f in
      let w = write_share_info-read j back row info (current row r) db2 db3 b f2 e3 in (w.0, w.1.0)

  -- When `refresh` returns a share with a 64-bit config hash, the store holds its apps and its hash, if
  -- the share's row was there and the JSON codec reads back what it writes.
  pub refresh-stores :
      (back : ReadsBack j) (version : Text) (far : Far) (n : Node) (info : ShareInfo) (r : ShareRow)
      → ltb info.config_hash 0x1_0000_0000_0000_0000 ≡ true
      → find (λ (x : ShareRow). x.id == n.row) n.db.tables.shares ≡ some r
      → (refresh j version far n).0 ≡ ok (some info)
      → (answer (read_apps j n.row) (refresh j version far n).1.db.tables ≡ ok info.apps)
        × (answer (read_share_config_hash n.row) (refresh j version far n).1.db.tables
            ≡ ok (some info.config_hash))
  unfolding refresh open_stream_ungated read_share_config_hash write_outdated Stored
  refresh-stores back version far n info r b f h =
      let opened = open_stream_ungated j far n in
      let (o, (known, (db, (e1, k1)))) = after_open-ok version far opened.0 opened.1 info h in
      let (same_db, same_row) = open_unless-db j far n.dead n o in
      let n1 = record opened.1 { db = db } in
      let (u, (db2, (db3, (e2, (e3, t3))))) =
        fetched-ok j opened.1.row (fetch_info version far.exchange known) info n1
          (sym (ap (λ (p : Result RefreshError (Option ShareInfo) × Node). p.0) k1) ∙ h) in
      let t1 =
        (read_column-ok opened.1.row _ opened.1.db db known e1).0
        ∙ ap (λ (d : Db). d.tables) same_db in
      let f1 : find (λ (x : ShareRow). x.id == opened.1.row) db.tables.shares ≡ some r =
        ap (λ (t : Tables). find (λ (x : ShareRow). x.id == opened.1.row) t.shares) t1
        ∙ (ap (λ i. find (λ (x : ShareRow). x.id == i) n.db.tables.shares) same_row ∙ f) in
      let w = recorded-Stored back opened.1.row info r u db db2 db3 b f1 e2 e3 in
      let final =
        ap (λ (p : Result RefreshError (Option ShareInfo) × Node). p.1.db.tables) k1 ∙ t3 in
      subst (λ i. Stored i info (refresh j version far n).1.db.tables) same_row
        (subst (λ (t : Tables). Stored opened.1.row info t) (sym final) w)
