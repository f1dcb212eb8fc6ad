-- ===== src/Host/GuestApi/Leave.antt =====
-- waserver/src/guest_api.rs, lines 238 to 258: a guest node that leaves.

use wispers_access.Host.Store.History.{delete-IsSound}
use wispers_access.Host.GuestApi.{delete_found, delete_guest, guest_removed, no_body}
use wispers_access.Host.Store.Bindings.{redeem_step_unbound}
use wispers_access.Host.Store.Calls.{
  Redemption, activated, guest_by_peer, guest_from_row, guest_number, has_hash, has_number,
  has_peer, new_guest, redeem_invite, remove_guest,
}
use wispers_access.Host.Store.Db.{
  Db, Error, External, GuestRecord, InviteRecord, Tables, Time, query, statement, to_secs,
  with_faults,
}
use wispers_access.Host.Store.Integrity.{IsSound, same_peer}
use wispers_access.Host.Store.Redemption.{redeem_invite_runs, redeem_new}
use wispers_access.Prelude.{
  ==_refl, Bool-cases, List, Result, Text, [], any, ap, arith, delete_where, false, find, inl, inr,
  none, ok, refl, some, subst, text_eq, text_eq_iff, text_eq_sym, true, ◌<◌, ◌==◌, ◌∙◌, ◌∷◌, ◌≡◌,
}
use wispers_access.Prelude.Distinct.{Distinct, any-delete_where}
use wispers_access.Prelude.Searches.{any_of_found, find-none}

no_other :
    (peer : Text) (g : GuestRecord) (gs : List GuestRecord)
    → text_eq g.peer_id peer ≡ true
    → any (same_peer g) gs ≡ false
    → any (has_peer peer) gs ≡ false
no_other peer g [] e h = refl
no_other peer g (k ∷ gs) e h =
    let is = (text_eq_iff g.peer_id peer).0 e in
    let other : text_eq peer k.peer_id ≡ false =
      subst (λ (p : Text). text_eq p k.peer_id ≡ false) is (ground (arith, h)) in
    ground (arith, no_other peer g gs e, h, other, text_eq_sym peer k.peer_id)

-- Only the row of this number has the peer.
unique_row :
    (peer : Text) (row : GuestRecord) (gs : List GuestRecord)
    → Distinct same_peer gs
    → find (has_peer peer) gs ≡ some row
    → any (has_peer peer) (delete_where (has_number row.id) gs) ≡ false
unique_row peer row [] d f = refl
unique_row peer row (g ∷ gs) d f = elim (Bool-cases (has_peer peer g)) [
  | inl e ↦
      let is : g ≡ row = ground (arith, e, f) in
      let gone =
        any-delete_where same_peer (has_number row.id) (has_peer peer) gs
          (no_other peer g gs e d.0) in
      let number : (g.id == row.id) ≡ true = rw is (==_refl row.id) in rw number gone
  | inr e ↦ ground (arith, e, unique_row peer row gs d.1 (ground (arith, e, f)))
]

delete_guest_runs :
    (peer : Text) (t : Tables) (row : GuestRecord)
    → find (has_peer peer) t.guests ≡ some row
    → any (has_number row.id) t.guests ≡ true
    → delete_guest peer (with_faults [] t) ≡ (
      ok (record { status = 204; etag = none; body = no_body }),
      with_faults [] (record t { guests = delete_where (has_number row.id) t.guests }),
    )
unfolding delete_guest delete_found guest_removed guest_by_peer remove_guest query statement
    guest_from_row
delete_guest_runs peer t row f a = rw f (rw a)

-- In sound tables: a guest node that leaves, with no failing statement, is answered 204, the tables
-- are sound after it, the peer has no row, and the invites are as they were.
pub delete_guest-leaves :
    (peer : Text) (t : Tables) (row : GuestRecord)
    → IsSound t
    → find (has_peer peer) t.guests ≡ some row
    → let r = delete_guest peer (with_faults [] t) in
      (r.0 ≡ ok (record { status = 204; etag = none; body = no_body }))
      × IsSound r.1.tables
      × (find (has_peer peer) r.1.tables.guests ≡ none)
      × (r.1.tables.invites ≡ t.invites)
delete_guest-leaves peer t row s f =
    let listed = any_of_found (has_peer peer) (has_number row.id) row t.guests f (==_refl row.id) in
    let runs = delete_guest_runs peer t row f listed in
    rw runs (
      refl,
      delete-IsSound (has_number row.id) t s,
      find-none (has_peer peer) _ (unique_row peer row t.guests s.peers f),
      refl,
    )

-- In sound tables and with no failing statement: a guest node that has left, also one whose row was
-- revoked, is activated again, as a new guest, by any invite that is not consumed and in time.
pub leave_rejoin :
    (x : External) (peer secret : Text) (now : Time) (t : Tables) (row : GuestRecord)
    (i : InviteRecord)
    → IsSound t
    → find (has_peer peer) t.guests ≡ some row
    → find (has_hash (x.sha256 secret)) t.invites ≡ some i
    → i.consumed_at ≡ none
    → to_secs now < i.expires_at
    → let left = (delete_guest peer (with_faults [] t)).1.tables in
      (redeem_invite x secret peer now (with_faults [] left)).0
      ≡ ok (activated (guest_from_row (new_guest (guest_number x left) peer i (to_secs now))))
unfolding redeem_new
leave_rejoin x peer secret now t row i s f fi c v =
    let left = (delete_guest peer (with_faults [] t)).1.tables in
    let (_, sound, gone, invites) = delete_guest-leaves peer t row s f in
    let fi' : find (has_hash (x.sha256 secret)) left.invites ≡ some i = rw invites fi in
    ap (λ (r : Result Error Redemption × Db). r.0) (redeem_invite_runs x secret peer now left sound)
    ∙ ap {B = Result Error Redemption} (λ (r : Redemption × Tables). ok r.0)
        (redeem_step_unbound x (x.sha256 secret) peer (to_secs now) left gone)
    ∙ ground (arith, fi', c, v)
