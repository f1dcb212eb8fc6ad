-- ===== src/Tests/OfStore.antt =====
-- The store's theorems at concrete inputs.

use wispers_access.Host.Store.Calls.{
  refused, GuestNode, NewInvite, activated, create_invite, guest_from_row, redeem_invite,
  revoke_guest,
}
use wispers_access.Host.Store.Db.{Db, Tables, db, with_faults}
use wispers_access.Host.Store.Guarantees.{redeem_once, redeem_retry}
use wispers_access.Host.Store.History.{remove, calls, calls-IsSound, redeem}
use wispers_access.Host.Store.Integrity.{IsSound}
use wispers_access.Host.Store.Invitation.{redeem_invite-create_invite}
use wispers_access.Host.Store.Redemption.{redeem_invite-redeem_step, redeem_step}
use wispers_access.Host.Store.Revocation.{IsRevoked, revoke_final, revoke_guest-IsRevoked, spares}
use wispers_access.Prelude.{
  [], codes, err, false, if◌then◌else◌, leb, none, ok, refl, some, text_eq, true, ◌∷◌, ◌≡◌, ◌≢◌,
  ◌⊎◌,
}
use wispers_access.Tests.Sample.{
  bound_a, bound_a-IsSound, demo, demo-IsFresh, guest_a, invited, invited-IsSound, peer_a, peer_b,
  secret,
}
use wispers_access.Wire.Activation.{invite_expired, revoked}

other_peer : peer_b ≢ peer_a
other_peer h = cc h

redeem_once_example :
    (redeem_invite demo secret peer_b 6_000_000_000 (
      with_faults [] (
        calls demo
          (([], remove 1) ∷ [])
          (redeem_invite demo secret peer_a 5_000_000_000 (with_faults [] invited)).1.tables))).0
    ≢ ok (activated guest_a)
unfolding redeem_invite text_eq guest_from_row
redeem_once_example =
    redeem_once demo secret peer_a peer_b 5_000_000_000 6_000_000_000 [] [] invited guest_a guest_a
      (([], remove 1) ∷ []) demo-IsFresh invited-IsSound other_peer refl

abbrev faulty : Db
faulty = with_faults (false ∷ false ∷ false ∷ true ∷ []) invited

redeem_invite-redeem_step_example :
    (((redeem_invite demo secret peer_a 5_000_000_000 faulty).0 ≡ err db)
      × ((redeem_invite demo secret peer_a 5_000_000_000 faulty).1.tables ≡ invited))
    ⊎ (((redeem_invite demo secret peer_a 5_000_000_000 faulty).0
          ≡ ok (redeem_step demo secret peer_a 5 invited).0)
        × ((redeem_invite demo secret peer_a 5_000_000_000 faulty).1.tables
            ≡ (redeem_step demo secret peer_a 5 invited).1))
redeem_invite-redeem_step_example =
    redeem_invite-redeem_step demo secret peer_a 5_000_000_000 faulty invited-IsSound

calls-IsSound_example :
    IsSound
      (calls demo (([], redeem secret peer_a 5_000_000_000) ∷ (true ∷ [], remove 1) ∷ []) invited)
calls-IsSound_example =
    calls-IsSound demo demo-IsFresh
      (([], redeem secret peer_a 5_000_000_000) ∷ (true ∷ [], remove 1) ∷ []) invited
      invited-IsSound

redeem_retry_example :
    redeem_invite demo secret peer_a 900_000_000_000 (
      with_faults []
        (redeem_invite demo secret peer_a 5_000_000_000 (with_faults [] invited)).1.tables)
    ≡ (
      ok (activated guest_a),
      with_faults []
          (redeem_invite demo secret peer_a 5_000_000_000 (with_faults [] invited)).1.tables,
    )
unfolding redeem_invite text_eq guest_from_row
redeem_retry_example =
    redeem_retry demo secret peer_a 5_000_000_000 900_000_000_000 [] invited guest_a demo-IsFresh
      invited-IsSound refl

abbrev revoked_tables : Tables
revoked_tables = (revoke_guest 1 7_000_000_000 (with_faults [] (bound_a none))).1.tables

abbrev guest_revoked : GuestNode
guest_revoked = record guest_a { revoked_at = some 7_000_000_000 }

revoke_final_example :
    ((redeem_invite demo
        (codes "ttt")
        peer_a
        8_000_000_000
        (with_faults [] (calls demo (([], remove 2) ∷ []) revoked_tables))).0
      ≡ err db)
    ⊎ ((redeem_invite demo
          (codes "ttt")
          peer_a
          8_000_000_000
          (with_faults [] (calls demo (([], remove 2) ∷ []) revoked_tables))).0
        ≡ ok (refused revoked))
unfolding revoke_guest text_eq guest_from_row spares
revoke_final_example =
    revoke_final demo 1 7_000_000_000 8_000_000_000 (with_faults [] (bound_a none)) guest_revoked
      (([], remove 2) ∷ []) (codes "ttt") [] demo-IsFresh (bound_a-IsSound none) refl refl

revoke_guest-IsRevoked_example : IsRevoked peer_a 1 revoked_tables
unfolding revoke_guest text_eq guest_from_row
revoke_guest-IsRevoked_example =
    revoke_guest-IsRevoked demo 1 7_000_000_000 (with_faults [] (bound_a none)) guest_revoked
      demo-IsFresh (bound_a-IsSound none) refl

abbrev new_invite : NewInvite
new_invite = record {
  secret = secret;
  user_id = codes "u";
  node_name = codes "n";
  expires_at = 100_000_000_000;
}

redeem_invite-create_invite_example :
    (redeem_invite demo secret peer_a 99_000_000_000 (
      with_faults []
        (create_invite demo new_invite 0
          (with_faults [] (record { invites = []; guests = [] }))).1.tables)).0
    ≡ ok (
        if leb 100 99
        then refused invite_expired
        else activated (record guest_a { activated_at = 99_000_000_000 }))
unfolding text_eq
redeem_invite-create_invite_example =
    redeem_invite-create_invite demo new_invite 0 99_000_000_000 peer_a
      (record { invites = []; guests = [] }) demo-IsFresh
      (record { ids = tt; hashes = tt; numbers = tt; peers = tt; single_use = tt; bound = tt }) refl
      refl
