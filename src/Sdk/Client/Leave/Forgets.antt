-- ===== src/Sdk/Client/Leave/Forgets.antt =====
-- `Client::leave` of sdk/src/lib.rs when the store is well: it forgets the share, whatever the host or
-- the hub says.
use mathlib.Core.Option
use wispers_access.Prelude.{
  arith, arith, not, true, false, delete_where, find, map_err, Option, Result, Text, [], any, ap,
  ok, refl, some, text_eq, ℕ, ◌&&◌, ◌==◌, ◌∙◌, ◌≡◌,
}
use wispers_access.Sdk.Client.{storage, Device, SdkError, host_node, next, on_store, stored_as}
use wispers_access.Sdk.Client.Leave.{
  next_ending, leave_row, found_row, Farewell, leave, leave_over, row, transport_leave,
}
use wispers_access.Sdk.Store.Db.{
  Db, Error, ShareRow, Tables, answer, delete_shares, of_row, read_column, share_with_id, statement,
  unknown_transport, with_faults,
}
use wispers_access.Sdk.Store.Rows.{names_row, delete_row, find_row, read_transport_kind}
use wispers_access.Wire.Transport.{Transport, from_str, wispers_connect}
use wispers_access.Sdk.Client.Leave.Ends.{
  Gone, LogoutEnds, Quiet, leave_over-Quiet, query_quiet_store,
}

module _ (t : Tables) where
  row-Quiet :
      (key : Text) (d : Device) (id : ℕ)
      → Quiet t d
      → answer (find_row key) t ≡ ok (some id)
      → row key d ≡ (ok id, record d { db = with_faults [] t })
  unfolding row find_row
  row-Quiet key d id q f =
      ap (λ p. next (stored_as storage p d) (found_row key))
        (query_quiet_store t
            (λ x. ok (Option.map (λ (r : ShareRow). r.id) (find (names_row key) x.shares))) d.db q
          ∙ ap (λ (a : Result Error (Option ℕ)). (a, with_faults [] t)) f)

  transport_leave-Quiet :
      (version : Text) (bye : Farewell) (id : ℕ) (kind : Transport) (d : Device)
      → (kind ≡ wispers_connect → LogoutEnds bye)
      → Quiet t d
      → answer (read_transport_kind id) t ≡ ok kind
      → (d' : Device) × (transport_leave version bye id d ≡ some (ok tt, d'))
        × Quiet t d'
        × Gone t bye id kind d'
  unfolding transport_leave read_transport_kind read_column
  transport_leave-Quiet version bye id kind d l q k =
      let (d', e, w, g) =
        leave_over-Quiet t version bye id kind (record d { db = with_faults [] t }) l refl in
      (
        d',
        ap (λ p. next_ending (stored_as host_node p d) (leave_over version bye id))
              (query_quiet_store t
                  (λ x.
                    of_row (share_with_id id x)
                      (λ r. map_err unknown_transport (from_str r.transport)))
                  d.db q
                ∙ ap (λ (a : Result Error Transport). (a, with_faults [] t)) k)
            ∙ e,
        w,
        g,
      )

  delete_row-Quiet :
      (id : ℕ) (d : Device)
      → Quiet t d
      → on_store storage (delete_row id) d
        ≡ (ok tt, record d { db = with_faults [] (delete_shares (λ r. r.id == id) t) })
  unfolding delete_row statement
  delete_row-Quiet id d q = rw q refl

  leave_row-Quiet :
      (version : Text) (bye : Farewell) (key : Text) (id : ℕ) (kind : Transport) (d : Device)
      → bye.closes ≡ true
      → (kind ≡ wispers_connect → LogoutEnds bye)
      → Quiet t d
      → answer (read_transport_kind id) t ≡ ok kind
      → (d' : Device) × (leave_row version bye key id d ≡ some (ok tt, d'))
        × Quiet (delete_shares (λ r. r.id == id) t) d'
        × Gone t bye id kind d'
  unfolding leave_row
  leave_row-Quiet version bye key id kind d c l q k =
      let gone : Device = record d { guest_nodes = delete_where (text_eq key) d.guest_nodes } in
      let (d1, e, w, g) = transport_leave-Quiet version bye id kind gone l q k in
      let closed : (any (text_eq key) d.guest_nodes && not bye.closes) ≡ false =
        ground (arith, c) in
      (
        record d1 { db = with_faults [] (delete_shares (λ r. r.id == id) t) },
        rw (leave_row, closed)
            (ap
                (λ (o : Option (Result SdkError (Unit {0}) × Device)).
                  Option.map (λ p. next p (λ _. on_store storage (delete_row id))) o)
                e
              ∙ ap some (delete_row-Quiet id d1 w)),
        refl,
        g,
      )

  leave-Quiet :
      (version : Text) (bye : Farewell) (key : Text) (d : Device) (id : ℕ) (kind : Transport)
      → bye.closes ≡ true
      → (kind ≡ wispers_connect → LogoutEnds bye)
      → Quiet t d
      → answer (find_row key) t ≡ ok (some id)
      → answer (read_transport_kind id) t ≡ ok kind
      → (d' : Device) × (leave version bye key d ≡ some (ok tt, d'))
        × Quiet (delete_shares (λ r. r.id == id) t) d'
        × Gone t bye id kind d'
  unfolding leave
  leave-Quiet version bye key d id kind c l q f k =
      let (d', e, w, g) =
        leave_row-Quiet version bye key id kind (record d { db = with_faults [] t }) c l refl k in
      (
        d',
        ap (λ (p : Result SdkError ℕ × Device). next_ending p (leave_row version bye key))
              (row-Quiet key d id q f)
            ∙ e,
        w,
        g,
      )

  -- Leaving a share that is in the store ends and succeeds, and its row and what refers to it are
  -- deleted and nothing else, whether or not the host or the hub can be told and the secrets can be
  -- deleted, if no statement fails, the row names a transport, closing the share's guest node ends,
  -- and, over Wispers Connect, the attempt to log out ends.
  pub leave-ends :
      (version : Text) (bye : Farewell) (key : Text) (d : Device) (id : ℕ) (kind : Transport)
      → bye.closes ≡ true
      → (kind ≡ wispers_connect → LogoutEnds bye)
      → Quiet t d
      → answer (find_row key) t ≡ ok (some id)
      → answer (read_transport_kind id) t ≡ ok kind
      → (d' : Device) × (leave version bye key d ≡ some (ok tt, d'))
        × (d'.db.tables ≡ delete_shares (λ r. r.id == id) t)
  leave-ends version bye key d id kind c l q f k =
      let (d', e, w, g) = leave-Quiet version bye key d id kind c l q f k in
      (d', e, ap (λ (x : Db). x.tables) w)
