-- ===== src/Sdk/GuestNode/Refreshed.antt =====
-- `refresh` of sdk/src/guest_node.rs, lines 148 to 180, and the store.
use wispers_access.Prelude.{
  Bool, Option, Result, ap, err, false, none, ok, refl, some, subst, sym, true, ℕ, ◌∙◌, ◌≡◌,
}
use wispers_access.Sdk.GuestCalls.{
  CallError, activation_refused, failed, invite_refused, too_old, unexpected,
}
use wispers_access.Sdk.GuestNode.{
  Far, N, Node, RefreshError, announce, announce_if, dial_answer, dialed, fetched, logged,
  open_unless, outdated_error, stored, with_db,
}
use wispers_access.Sdk.Store.Db.{Db, Error}
use wispers_access.Sdk.Store.Info.{write_share_info}
use wispers_access.Sdk.Store.Reads.{Keeps-read_share}
use wispers_access.Sdk.Store.Rows.{Json, write_outdated}
use wispers_access.Sdk.Store.Shares.{Share, read_share}
use wispers_access.Sdk.Transports.{TerminalState, TransportError, terminal, transient}
use wispers_access.Wire.Share.{ShareInfo}

module _ (j : Json) where
  pub with_db-ok :
      {A : Type 0} (p : Result Error A × Db) (k : A → N (Option ShareInfo)) (n : Node)
      {info : Option ShareInfo}
      → (with_db j p k n).0 ≡ ok info
      → (a : A) × ((db : Db) × ((p ≡ (ok a, db)) × (with_db j p k n ≡ k a (record n { db = db }))))
  with_db-ok (ok a, db) k n h = (a, (db, (refl, refl)))
  with_db-ok (err e, db) k n h = absurd (cc h)

  dial_answer-db :
      (far : Far) (a : Result TransportError (Unit {0})) (n : Node)
      → (dial_answer j far a n).0 ≡ ok tt
      → ((dial_answer j far a n).1.db ≡ n.db) × ((dial_answer j far a n).1.row ≡ n.row)
  unfolding dial_answer
  dial_answer-db far (ok stream) n h = (refl, refl)
  dial_answer-db far (err (terminal s)) n h = absurd (cc h)
  dial_answer-db far (err transient) n h = absurd (cc h)

  pub open_unless-db :
      (far : Far) (o : Option TerminalState) (n : Node)
      → (open_unless j far o n).0 ≡ ok tt
      → ((open_unless j far o n).1.db ≡ n.db) × ((open_unless j far o n).1.row ≡ n.row)
  unfolding open_unless
  open_unless-db far (some s) n h = absurd (cc h)
  open_unless-db far none n h = dial_answer-db far far.dial (logged dialed n) h

  told-tables :
      (p : Result Error Share × Db) (info : Option ShareInfo) (n : Node)
      → (with_db j p (λ share. announce j share (λ n. (ok info, n))) n).1.db.tables ≡ p.1.tables
  told-tables (ok share, db) info n = refl
  told-tables (err e, db) info n = refl

  announce_if-tables :
      (row : ℕ) (b : Bool) (info : Option ShareInfo) (n : Node)
      → (announce_if j row b (λ n. (ok info, n)) n).1.db.tables ≡ n.db.tables
  announce_if-tables row false info n = refl
  announce_if-tables row true info n =
      told-tables (read_share j row n.db) info n
      ∙ Keeps-read_share (λ t. t ≡ n.db.tables) j row n.db refl

  told-ok :
      (p : Result Error Share × Db) (info info' : Option ShareInfo) (n : Node)
      → (with_db j p (λ share. announce j share (λ n. (ok info, n))) n).0 ≡ ok info'
      → info ≡ info'
  told-ok (ok share, db) info info' n h = cc h
  told-ok (err e, db) info info' n h = absurd (cc h)

  announce_if-ok :
      (row : ℕ) (b : Bool) (info info' : Option ShareInfo) (n : Node)
      → (announce_if j row b (λ n. (ok info, n)) n).0 ≡ ok info'
      → info ≡ info'
  announce_if-ok row false info info' n h = cc h
  announce_if-ok row true info info' n h = told-ok (read_share j row n.db) info info' n h

  told-err :
      (p : Result Error Share × Db) (e : RefreshError) (info : Option ShareInfo) (n : Node)
      → ¬ ((with_db j p (λ share. announce j share (λ n. (err e, n))) n).0 ≡ ok info)
  told-err (ok share, db) e info n h = cc h
  told-err (err e', db) e info n h = cc h

  announce_if-err :
      (row : ℕ) (b : Bool) (e : RefreshError) (info : Option ShareInfo) (n : Node)
      → ¬ ((announce_if j row b (λ n. (err e, n)) n).0 ≡ ok info)
  announce_if-err row false e info n h = cc h
  announce_if-err row true e info n h = told-err (read_share j row n.db) e info n h

  -- What `stored` wrote when it returns a share.
  stored-ok :
      (row : ℕ) (previously : Bool) (got : Option ShareInfo) (info : ShareInfo) (n : Node)
      → (stored j row previously got n).0 ≡ ok (some info)
      → (db : Db) × ((write_share_info j row info n.db ≡ (ok tt, db))
          × ((stored j row previously got n).1.db.tables ≡ db.tables))
  unfolding stored
  stored-ok row previously none info n h =
      absurd (cc (announce_if-ok row previously none (some info) n h))
  stored-ok row previously (some new) info n h =
      let (u, (db, (w, e))) =
        with_db-ok (write_share_info j row new n.db)
          (λ _. announce_if j row true (λ n. (ok (some new), n))) n h in
      let n1 = record n { db = db } in
      let same : new ≡ info = cc (
        announce_if-ok row true (some new) (some info) n1
          (sym (ap (λ (p : Result RefreshError (Option ShareInfo) × Node). p.0) e) ∙ h)) in
      (
        db,
        (
          subst (λ (x : ShareInfo). write_share_info j row x n.db ≡ (ok tt, db)) same w,
          ap (λ (p : Result RefreshError (Option ShareInfo) × Node). p.1.db.tables) e
              ∙ announce_if-tables row true (some new) n1,
        ),
      )

  pub fetched-ok :
      (row : ℕ) (got : Result CallError (Option ShareInfo)) (info : ShareInfo) (n : Node)
      → (fetched j row got n).0 ≡ ok (some info)
      → (b : Bool) × ((db : Db) × ((db' : Db) × ((write_outdated row false n.db ≡ (ok b, db))
              × ((write_share_info j row info db ≡ (ok tt, db'))
                  × ((fetched j row got n).1.db.tables ≡ db'.tables)))))
  unfolding fetched
  fetched-ok row (ok got) info n h =
      let (b, (db, (w, e))) =
        with_db-ok (write_outdated row false n.db) (λ previously. stored j row previously got) n
          h in
      let n1 = record n { db = db } in
      let (db', (v, t)) =
        stored-ok row b got info n1
          (sym (ap (λ (p : Result RefreshError (Option ShareInfo) × Node). p.0) e) ∙ h) in
      (
        b,
        (
          db,
          (
            db',
            (
              w,
              (v, ap (λ (p : Result RefreshError (Option ShareInfo) × Node). p.1.db.tables) e ∙ t),
            ),
          ),
        ),
      )
  fetched-ok row (err too_old) info n h =
      let (b, (db, (w, e))) =
        with_db-ok (write_outdated row true n.db)
          (λ changed. announce_if j row changed (λ n. (err outdated_error, n))) n h in
      absurd (
        announce_if-err row b outdated_error (some info) (record n { db = db })
          (sym (ap (λ (p : Result RefreshError (Option ShareInfo) × Node). p.0) e) ∙ h))
  fetched-ok row (err failed) info n h = absurd (cc h)
  fetched-ok row (err (unexpected status)) info n h = absurd (cc h)
  fetched-ok row (err (invite_refused why)) info n h = absurd (cc h)
  fetched-ok row (err (activation_refused why)) info n h = absurd (cc h)
