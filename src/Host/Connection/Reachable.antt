-- ===== src/Host/Connection/Reachable.antt =====
-- Whom a connection serves.
use wispers_access.Host.Connection.{
  Steps, Step, Phase, Registration, World, accepted, activating, after_stream, before_activation,
  bound_guest, close_connections, close_phase, closed, identify, identify_again, identify_guest,
  register_connection, resolved, serving, unregister_connection,
}
use wispers_access.Host.GuestApi.{Formats}
use wispers_access.Host.Protocol.{
  Handled, answered, browsed, failed, no_data, refused, shut, tunnelled,
}
use wispers_access.Host.Store.Calls.{
  GuestNode, guest_by_peer, guest_from_row, has_peer, revoke_guest,
}
use wispers_access.Host.Store.Db.{Db, Error, External, Time, query, statement, with_faults}
use wispers_access.Host.Store.History.{call, revoke}
use wispers_access.Prelude.{
  Bool, Bool-cases, List, Option, Option-cases, Result, Text, any, arith, err, find, inl, inr, none,
  ok, refl, some, subst, text_eq_iff, ℕ, ◌&&◌, ◌==◌, ◌≡◌,
}
use wispers_access.Prelude.Searches.{find_holds}
use wispers_access.Host.Connection.{
  looked_up, looked_up_again, handled, timed_out, stream_before, touched, registered, stream_served,
  ended, other_call, other_connection, revocation_closes, here, ◌▸◌,
}

-- A guest node that the connection resolved has the connection's key, and was not revoked then.
unfoldable pub IsOwn : Text → Phase → Type 0
IsOwn peer (resolved guest) = (guest.peer_id ≡ peer) × (guest.revoked_at ≡ none)
IsOwn peer (serving id guest) = (guest.peer_id ≡ peer) × (guest.revoked_at ≡ none)
IsOwn peer accepted = Unit
IsOwn peer activating = Unit
IsOwn peer handled = Unit
IsOwn peer (closed code) = Unit

guest_by_peer-own :
    (peer : Text) (d : Db) (guest : GuestNode)
    → (guest_by_peer peer d).0 ≡ ok (some guest)
    → guest.peer_id ≡ peer
unfolding guest_by_peer query statement guest_from_row
guest_by_peer-own peer d guest e = elim (Option-cases (find (has_peer peer) d.tables.guests)) [
  | inl f ↦ absurd (ground (arith, f, e))
  | inr (row, f) ↦
      let own =
        (text_eq_iff row.peer_id peer).0 (find_holds (has_peer peer) row d.tables.guests f) in
      ground (arith, f, e, own)
]

identify-IsOwn :
    (peer : Text) (r : Result Error (Option GuestNode))
    → ((guest : GuestNode) → r ≡ ok (some guest) → guest.peer_id ≡ peer)
    → IsOwn peer (identify r)
unfolding identify identify_guest IsOwn
identify-IsOwn peer (ok (some guest)) own = elim (Option-cases guest.revoked_at) [
  | inl e ↦ ground (arith, e, own guest refl)
  | inr (at, e) ↦ rw e tt
]
identify-IsOwn peer (ok none) own = tt
identify-IsOwn peer (err e) own = tt

identify_again-IsOwn :
    (peer : Text) (r : Result Error (Option GuestNode))
    → ((guest : GuestNode) → r ≡ ok (some guest) → guest.peer_id ≡ peer)
    → IsOwn peer (identify_again r)
unfolding identify_again bound_guest IsOwn
identify_again-IsOwn peer (ok (some guest)) own = elim (Option-cases guest.revoked_at) [
  | inl e ↦ ground (arith, e, own guest refl)
  | inr (at, e) ↦ rw e tt
]
identify_again-IsOwn peer (ok none) own = tt
identify_again-IsOwn peer (err e) own = tt

after_stream-IsOwn : (peer : Text) (r : Result Error Handled) → IsOwn peer (after_stream r)
unfolding after_stream IsOwn
after_stream-IsOwn peer (ok refused) = tt
after_stream-IsOwn peer (ok failed) = tt
after_stream-IsOwn peer (ok (answered response)) = tt
after_stream-IsOwn peer (ok (browsed target user)) = tt
after_stream-IsOwn peer (ok (tunnelled t user)) = tt
after_stream-IsOwn peer (ok shut) = tt
after_stream-IsOwn peer (ok no_data) = tt
after_stream-IsOwn peer (err e) = tt

close_phase-IsOwn :
    (peer : Text) (number : ℕ) (cs : List Registration) (p : Phase)
    → IsOwn peer p
    → IsOwn peer (close_phase number cs p)
unfolding close_phase IsOwn
close_phase-IsOwn peer number cs (serving id guest) o =
    elim (Bool-cases (any (λ (c : Registration). c.id == id && c.number == number) cs)) [
      | inl e ↦ rw e tt
      | inr e ↦ rw e o
    ]
close_phase-IsOwn peer number cs accepted o = tt
close_phase-IsOwn peer number cs activating o = tt
close_phase-IsOwn peer number cs handled o = tt
close_phase-IsOwn peer number cs (resolved guest) o = o
close_phase-IsOwn peer number cs (closed code) o = tt

module _ (x : External) (formats : Formats) (connect : Text → Bool) (peer : Text) where
  Step-IsOwn :
      (v w : World) → Step x formats connect peer v w → IsOwn peer v.phase → IsOwn peer w.phase
  unfolding register_connection unregister_connection close_connections before_activation IsOwn
  Step-IsOwn v w (looked_up u faults e) o =
      identify-IsOwn peer _ (guest_by_peer-own peer (with_faults faults u.tables))
  Step-IsOwn v w (timed_out u code e) o = tt
  Step-IsOwn v w (stream_before u faults stream ctx now e) o = after_stream-IsOwn peer _
  Step-IsOwn v w (looked_up_again u faults e) o =
      identify_again-IsOwn peer _ (guest_by_peer-own peer (with_faults faults u.tables))
  Step-IsOwn v w (touched u faults now guest e) o = o
  Step-IsOwn v w (registered u guest e) o = subst (IsOwn peer) e o
  Step-IsOwn v w (stream_served u faults stream ctx now id guest e) o = o
  Step-IsOwn v w (ended u id guest e) o = tt
  Step-IsOwn v w (other_call u faults c) o = o
  Step-IsOwn v w (other_connection u number user_id) o = o
  Step-IsOwn v w (revocation_closes u number) o =
      close_phase-IsOwn peer number u.connections u.phase o

  -- From a world in which it holds, in particular from the acceptance of the connection, and whatever
  -- steps follow: a connection serves only a guest node with the connection's own key that
  -- was not revoked when it was looked up.
  pub Steps-IsOwn :
      (v w : World) → Steps x formats connect peer v w → IsOwn peer v.phase → IsOwn peer w.phase
  Steps-IsOwn v w (here u) o = o
  Steps-IsOwn v w (◌▸◌ {v = m} s rest) o = Steps-IsOwn m w rest (Step-IsOwn v m s o)

  -- A revocation between the lookup and the registration can leave the connection served: from a
  -- world in which the guest is resolved and not registered, steps lead to one in which its
  -- connection is served and the tables are those that `revoke_guest` leaves.
  pub late_revocation :
      (w : World) (guest : GuestNode) (now : Time) (faults : List Bool)
      → w.phase ≡ resolved guest
      → (v : World) × Steps x formats connect peer w v
        × (v.phase ≡ serving w.next_connection_id guest)
        × (v.tables ≡ (revoke_guest guest.number now (with_faults faults w.tables)).1.tables)
  unfolding call register_connection close_connections close_phase
  late_revocation w guest now faults e =
      let revoked_world : World = record w {
        tables = call x (revoke guest.number now) (with_faults faults w.tables);
      } in
      let closed_world : World = close_connections guest.number revoked_world in
      let still : closed_world.phase ≡ resolved guest = rw e in
      (
        record (register_connection guest.number guest.user_id closed_world) {
          phase = serving closed_world.next_connection_id guest;
        },
        other_call w faults (revoke guest.number now)
            ▸ (revocation_closes revoked_world guest.number
                ▸ (registered closed_world guest still ▸ here _)),
        refl,
        refl,
      )
