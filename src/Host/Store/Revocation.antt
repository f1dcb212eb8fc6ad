-- ===== src/Host/Store/Revocation.antt =====
-- waserver/src/storage.rs: revoked guest nodes in a history of calls.
use wispers_access.Wire.Activation.{revoked}
use wispers_access.Host.Store.Bindings.{redeem_step_bound}
use wispers_access.Host.Store.Calls.{Redemption, answer_bound, redeem_invite, refused}
use wispers_access.Host.Store.Db.{IsFresh, db}
use wispers_access.Host.Store.History.{call-IsSound, calls-IsSound}
use wispers_access.Host.Store.Integrity.{IsConsumed-found, IsSound, same_peer}
use wispers_access.Host.Store.Redemption.{redeem_invite-redeem_step, redeem_step}
use wispers_access.Prelude.{==_iff, Option-cases, ap, err, text_eq_refl, ◌∙◌, ◌⊎◌}
use wispers_access.Prelude.Distinct.{find_by_key}
use wispers_access.Prelude.Searches.{All_find, find_holds}
use wispers_access.Host.Store.Calls.{
  GuestNode, consume_invite, guest_from_row, has_number, has_peer, revoke_guest, set_revoked,
}
use wispers_access.Host.Store.Db.{Db, External, GuestRecord, Tables, Time, to_secs, with_faults}
use wispers_access.Host.Store.Effects.{later, redeem_invite_cases}
use wispers_access.Host.Store.History.{Call, call, calls, create, redeem, remove, revoke, touch}
use wispers_access.Host.Store.Writes.{
  create_invite_cases, live_number, remove_guest_cases, revoke_guest_cases, seen, touch_guest_cases,
}
use wispers_access.Prelude.{
  &&-eq-true, Bool, List, Text, [], all, arith, find, if◌then◌else◌, inl, inr, is_some, not, ok,
  refl, some, subst, sym, true, update_where, ℕ, ◌==◌, ◌∷◌, ◌≡◌,
}
use wispers_access.Prelude.Searches.{find-append, find-delete_where, find-update_where}

-- The row of this peer has this number and is revoked.
pub record IsRevoked (peer : Text) (number : ℕ) (t : Tables) : Type 0 where
  pub row : GuestRecord
  pub found : find (has_peer peer) t.guests ≡ some row
  pub numbered : row.id ≡ number
  pub revoked : is_some row.revoked_at ≡ true

-- The call does not remove this row.
unfoldable pub spares : ℕ → Call → Bool
spares number (remove n) = not (number == n)
spares number (create _ _) = true
spares number (redeem _ _ _) = true
spares number (touch _ _) = true
spares number (revoke _ _) = true

revoked_again :
    (secs n : ℕ) (g : GuestRecord)
    → is_some g.revoked_at ≡ true
    → is_some (if live_number n g then set_revoked secs g else g).revoked_at ≡ true
revoked_again secs n g h = ground arith

module _ (x : External) (peer : Text) (number : ℕ) where
  update-IsRevoked :
      (f : GuestRecord → GuestRecord) (p : GuestRecord → Bool) (t : Tables)
      → ((g : GuestRecord) → (f g).id ≡ g.id)
      → ((g : GuestRecord) → (f g).peer_id ≡ g.peer_id)
      → ((g : GuestRecord) → is_some g.revoked_at ≡ true → is_some (f g).revoked_at ≡ true)
      → IsRevoked peer number t
      → IsRevoked peer number (record t { guests = update_where p f t.guests })
  update-IsRevoked f p t id same keep r = record {
    row = if p r.row then f r.row else r.row;
    found = ground (arith, find-update_where (has_peer peer) p f t.guests (λ g. rw same), r.found);
    numbered = ground (arith, id r.row, r.numbered);
    revoked = ground (arith, keep r.row r.revoked, r.revoked);
  }

  call-IsRevoked :
      (c : Call) (d : Db)
      → spares number c ≡ true
      → IsRevoked peer number d.tables
      → IsRevoked peer number (call x c d)
  unfolding call spares
  call-IsRevoked (create new now) d sp r = elim (create_invite_cases d x new now) [
    | inl e ↦ rw e r
    | inr (free, e) ↦
        rw e (record { row = r.row; found = r.found; numbered = r.numbered; revoked = r.revoked })
  ]
  call-IsRevoked (redeem secret q now) d sp r = elim (redeem_invite_cases x secret q now d) [
    | inl e ↦ rw e r
    | inr b ↦ subst (IsRevoked peer number) (sym b.tables) (
        unfold consume_invite in
        record {
          row = r.row;
          found = find-append (has_peer peer) r.row d.tables.guests _ r.found;
          numbered = r.numbered;
          revoked = r.revoked;
        })
  ]
  call-IsRevoked (touch q now) d sp r = elim (touch_guest_cases d q now) [
    | inl e ↦ rw e r
    | inr e ↦
        rw e
          (update-IsRevoked (seen now) (has_peer q) d.tables (λ g. refl) (λ g. refl) (λ g h. h) r)
  ]
  call-IsRevoked (remove n) d sp r = elim (remove_guest_cases d n) [
    | inl e ↦ rw e r
    | inr e ↦ rw e (record {
      row = r.row;
      found =
          find-delete_where (has_peer peer) (has_number n) r.row d.tables.guests r.found
            (ground (arith, r.numbered));
      numbered = r.numbered;
      revoked = r.revoked;
    })
  ]
  call-IsRevoked (revoke n now) d sp r = elim (revoke_guest_cases d n now) [
    | inl e ↦ rw e r
    | inr e ↦ rw e (
        update-IsRevoked (set_revoked (to_secs now)) (live_number n) d.tables (λ g. refl)
          (λ g. refl) (λ g h. refl) r)
  ]

  calls-IsRevoked :
      (history : List (List Bool × Call)) (t : Tables)
      → all (λ c. spares number c.1) history ≡ true
      → IsRevoked peer number t
      → IsRevoked peer number (calls x history t)
  unfolding calls
  calls-IsRevoked [] t sp r = r
  calls-IsRevoked ((faults, c) ∷ rest) t sp r =
      let (now, later) = &&-eq-true (spares number c) _ sp in
      calls-IsRevoked rest _ later (call-IsRevoked c (with_faults faults t) now r)

-- What `revoke_guest` returns when it succeeds.
revoke_guest_found :
    (number : ℕ) (now : Time) (d : Db) (node : GuestNode)
    → (revoke_guest number now d).0 ≡ ok node
    → (row : GuestRecord) × (find (has_number number) (revoke_guest number now d).1.tables.guests
        ≡ some row)
      × ((revoke_guest number now d).1.tables.guests
          ≡ update_where (live_number number) (set_revoked (to_secs now)) d.tables.guests)
      × (guest_from_row row ≡ node)
unfolding revoke_guest
revoke_guest_found number now d node e =
    elim (Option-cases (
      find (has_number number)
        (update_where (live_number number) (set_revoked (to_secs now)) d.tables.guests))) [
          | inl n ↦ absurd (ground (arith, n, e))
          | inr (row, f) ↦ (row, ground (arith, f, e), ground (arith, f, e), ground (arith, f, e))
        ]

revoked_by_update :
    (secs n : ℕ) (g : GuestRecord)
    → has_number n g ≡ true
    → is_some (if live_number n g then set_revoked secs g else g).revoked_at ≡ true
revoked_by_update secs n g h = ground arith

node_peer :
    (g : GuestRecord) (node : GuestNode) → guest_from_row g ≡ node → g.peer_id ≡ node.peer_id
unfolding guest_from_row
node_peer g node e = ap (λ (v : GuestNode). v.peer_id) e

-- In sound tables and with fresh row ids: after a successful `revoke_guest` the node's row is there, has the number and is revoked.
pub revoke_guest-IsRevoked :
    (x : External) (number : ℕ) (now : Time) (d : Db) (node : GuestNode)
    → IsFresh x
    → IsSound d.tables
    → (revoke_guest number now d).0 ≡ ok node
    → IsRevoked node.peer_id number (revoke_guest number now d).1.tables
unfolding call
revoke_guest-IsRevoked x number now d node fresh s e =
    let secs = to_secs now in
    let after = (revoke_guest number now d).1.tables in
    let s' = call-IsSound x fresh (revoke number now) d s in
    let (row, f, update, is) = revoke_guest_found number now d node e in
    let by_peer =
      find_by_key same_peer (λ (g : GuestRecord). text_eq_refl g.peer_id) row (has_number number)
        after.guests s'.peers f in
    let stored =
      find-update_where (has_number number) (live_number number) (set_revoked secs) d.tables.guests
        (λ g. refl) in
    let f' = subst (λ (gs : List GuestRecord). find (has_number number) gs ≡ some row) update f in
    record {
      row = row;
      found =
          subst (λ (p : Text). find (has_peer p) after.guests ≡ some row) (node_peer row node is)
            by_peer;
      numbered = (==_iff _ _).0 (find_holds (has_number number) row after.guests f);
      revoked = elim (Option-cases (find (has_number number) d.tables.guests)) [
        | inl n ↦ absurd (ground (arith, n, stored, f'))
        | inr (g, n) ↦ ground (
          arith,
          n,
          stored,
          f',
          revoked_by_update secs number g (find_holds (has_number number) g d.tables.guests n),
        )
      ];
    }

IsRevoked-refused :
    (x : External) (hash peer : Text) (secs number : ℕ) (t : Tables)
    → IsSound t
    → IsRevoked peer number t
    → (redeem_step x hash peer secs t).0 ≡ refused revoked
unfolding answer_bound guest_from_row
IsRevoked-refused x hash peer secs number t s r =
    let (i, n, c) =
      IsConsumed-found t.invites r.row.invite_id
        (All_find (has_peer peer) _ r.row t.guests s.bound r.found) in
    ap (λ (p : Redemption × Tables). p.0) (redeem_step_bound x hash peer secs t r.row i r.found n)
    ∙ ground (arith, r.revoked)

-- In sound tables and with fresh row ids: once a guest node was revoked, its peer is refused as revoked, with any secret and at any time,
-- after any calls that do not remove its row, unless the database fails.
pub revoke_final :
    (x : External) (number : ℕ) (now at : Time) (d : Db) (node : GuestNode)
    (history : List (List Bool × Call)) (secret : Text) (faults : List Bool)
    → IsFresh x
    → IsSound d.tables
    → (revoke_guest number now d).0 ≡ ok node
    → all (λ c. spares number c.1) history ≡ true
    → let reply =
        (redeem_invite x secret node.peer_id at
          (with_faults faults (calls x history (revoke_guest number now d).1.tables))).0 in
      (reply ≡ err db) ⊎ (reply ≡ ok (refused revoked))
unfolding call
revoke_final x number now at d node history secret faults fresh s e sp =
    let s1 = call-IsSound x fresh (revoke number now) d s in
    let s2 = calls-IsSound x fresh history _ s1 in
    let r2 =
      calls-IsRevoked x node.peer_id number history _ sp
        (revoke_guest-IsRevoked x number now d node fresh s e) in
    elim (redeem_invite-redeem_step x secret node.peer_id at (with_faults faults _) s2) [
      | inl (f, _) ↦ inl f
      | inr (f, _) ↦ inr (
          f
          ∙ ap ok (IsRevoked-refused x (x.sha256 secret) node.peer_id (to_secs at) number _ s2 r2))
    ]
