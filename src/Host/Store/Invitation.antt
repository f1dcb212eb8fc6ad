-- ===== src/Host/Store/Invitation.antt =====
-- From an invite to the guest node that it was created for.
use wispers_access.Host.Store.Bindings.{redeem_step_unbound}
use wispers_access.Host.Store.Calls.{
  NewInvite, Redemption, activated, create_invite, guest_from_row, guest_number, has_hash, has_peer,
  new_guest, redeem_invite, refused,
}
use wispers_access.Host.Store.Db.{
  Db, Error, External, IsFresh, Tables, Time, from_secs, to_secs, with_faults,
}
use wispers_access.Host.Store.History.{call, call-IsSound, create}
use wispers_access.Host.Store.Integrity.{IsSound}
use wispers_access.Host.Store.Redemption.{redeem_invite_runs, redeem_new}
use wispers_access.Host.Store.Writes.{invite_row}
use wispers_access.Prelude.{
  Result, Text, [], any, ap, arith, false, find, if◌then◌else◌, leb, none, ok, subst, text_eq_refl,
  ◌++◌, ◌∙◌, ◌∷◌, ◌≡◌,
}
use wispers_access.Prelude.Searches.{find_last}
use wispers_access.Wire.Activation.{invite_expired}

create_invite_runs :
    (x : External) (new : NewInvite) (now : Time) (t : Tables)
    → any (has_hash (x.sha256 new.secret)) t.invites ≡ false
    → (create_invite x new now (with_faults [] t)).1.tables
      ≡ record t { invites = t.invites ++ invite_row x new now t ∷ [] }
unfolding create_invite
create_invite_runs x new now t h = ground (arith, h)

-- In sound tables, with fresh row ids, an unused secret hash and no failing statement: an invite
-- that was just created, presented by a peer without a row, activates it until the second
-- in which it expires: the guest node has the user id and the name of the invite. From that
-- second on the invite is refused as expired.
pub redeem_invite-create_invite :
    (x : External) (new : NewInvite) (created at : Time) (peer : Text) (t : Tables)
    → IsFresh x
    → IsSound t
    → any (has_hash (x.sha256 new.secret)) t.invites ≡ false
    → find (has_peer peer) t.guests ≡ none
    → (redeem_invite x new.secret peer at
        (with_faults [] (create_invite x new created (with_faults [] t)).1.tables)).0
      ≡ ok (
          if leb (to_secs new.expires_at) (to_secs at)
          then refused invite_expired
          else activated (record {
            number = guest_number x t;
            peer_id = peer;
            user_id = new.user_id;
            display_name = new.node_name;
            activated_at = from_secs (to_secs at);
            last_seen_at = none;
            revoked_at = none;
          }))
unfolding call redeem_new guest_from_row new_guest
redeem_invite-create_invite x new created at peer t fresh s free n =
    let row = invite_row x new created t in
    let t' : Tables = record t { invites = t.invites ++ row ∷ [] } in
    let runs = create_invite_runs x new created t free in
    let s' = subst IsSound runs (call-IsSound x fresh (create new created) (with_faults [] t) s) in
    let found = find_last (has_hash (x.sha256 new.secret)) row t.invites free in
    rw runs (
      ap (λ (r : Result Error Redemption × Db). r.0) (redeem_invite_runs x new.secret peer at t' s')
      ∙ ap {B = Result Error Redemption} (λ (r : Redemption × Tables). ok r.0)
          (redeem_step_unbound x (x.sha256 new.secret) peer (to_secs at) t' n)
      ∙ ground (arith, found, text_eq_refl (x.sha256 new.secret)))
