-- ===== src/Host/Store/Guarantees.antt =====
-- waserver/src/storage.rs, lines 424 to 511: redeeming an invite among other calls.
use wispers_access.Host.Store.Bindings.{IsBound-answer, redeem_step_bound}
use wispers_access.Host.Store.Calls.{Redemption}
use wispers_access.Host.Store.Redemption.{redeem_invite_runs}
use wispers_access.Prelude.{[]}
use wispers_access.Host.Store.Bindings.{IsBound, IsBound-IsSpent, activated-IsBound}
use wispers_access.Host.Store.Calls.{
  GuestNode, activated, has_hash, has_id, has_peer, redeem_invite,
}
use wispers_access.Host.Store.Db.{
  External, InviteRecord, IsFresh, Tables, Time, after, to_secs, with_faults,
}
use wispers_access.Host.Store.History.{Call, call, call-IsSound, calls, calls-IsSound, redeem}
use wispers_access.Host.Store.Integrity.{IsSound, same_hash}
use wispers_access.Host.Store.Redemption.{redeem_invite-redeem_step, redeem_step}
use wispers_access.Host.Store.SingleUse.{IsSpent, call-IsSpent, calls-IsSpent, only_peer}
use wispers_access.Prelude.{
  ==_iff, Bool, List, Text, ap, arith, find, inl, inr, ok, some, subst, sym, text_eq_iff,
  text_eq_refl, ◌∙◌, ◌≡◌, ◌≢◌,
}
use wispers_access.Prelude.Distinct.{find_by_key}
use wispers_access.Prelude.Searches.{all-find, find_holds}

spent_bound_eq :
    (x : External) (hash p q : Text) (t : Tables) (guest : GuestNode)
    → IsSound t
    → IsSpent hash p t
    → IsBound hash q guest t
    → q ≡ p
spent_bound_eq x hash p q t guest s spent b =
    let mine = IsBound-IsSpent x hash q t s b in
    let same : mine.invite ≡ spent.invite = cc (mine.found, spent.found) in
    let by_hash =
      find_by_key same_hash (λ (v : InviteRecord). text_eq_refl v.secret_hash) b.invite
        (has_id b.row.invite_id) t.invites s.hashes b.redeemed in
    let invite_is : b.invite ≡ spent.invite = cc (
      subst (λ (h : Text). find (has_hash h) t.invites ≡ some b.invite) b.hash_is by_hash,
      spent.found,
    ) in
    let id_is =
      (==_iff _ _).0 (find_holds (has_id b.row.invite_id) b.invite t.invites b.redeemed) in
    let peer_is = (text_eq_iff _ _).0 (find_holds (has_peer q) b.row t.guests b.found) in
    let only =
      all-find (has_peer q) (only_peer spent.invite.id p) b.row t.guests spent.only b.found in
    let row_id : b.row.invite_id ≡ spent.invite.id =
      sym id_is ∙ ap (λ (v : InviteRecord). v.id) invite_is in
    sym peer_is ∙ (text_eq_iff _ _).0 (ground (arith, only, row_id))

-- An activation, whatever statements fail, leaves sound tables with the binding.
activation_binds :
    (x : External) (fresh : IsFresh x) (secret p : Text) (now : Time) (faults : List Bool)
    (t : Tables) (guest : GuestNode)
    → IsSound t
    → (redeem_invite x secret p now (with_faults faults t)).0 ≡ ok (activated guest)
    → IsBound
        (x.sha256 secret)
        p
        guest
        (redeem_invite x secret p now (with_faults faults t)).1.tables
activation_binds x fresh secret p now faults t guest s e =
    elim (redeem_invite-redeem_step x secret p now (with_faults faults t) s) [
      | inl (f, _) ↦ absurd (cc (f, e))
      | inr (r, after) ↦
          let reply : (redeem_step x (x.sha256 secret) p (to_secs now) t).0 ≡ activated guest =
            cc (r, e) in
          rw after (activated-IsBound x (x.sha256 secret) p t s (to_secs now) guest reply)
    ]

-- In sound tables and with fresh row ids: once an invite has activated a peer, no other peer is ever
-- activated by it: not after any calls, at any time, whatever statements fail, and not after the
-- first peer has left or was revoked.
pub redeem_once :
    (x : External) (secret p q : Text) (now at : Time) (faults faults' : List Bool) (t : Tables)
    (guest other : GuestNode) (history : List (List Bool × Call))
    → IsFresh x
    → IsSound t
    → q ≢ p
    → (redeem_invite x secret p now (with_faults faults t)).0 ≡ ok (activated guest)
    → (redeem_invite x secret q at (
        with_faults faults'
          (calls x history (redeem_invite x secret p now (with_faults faults t)).1.tables))).0
      ≢ ok (activated other)
unfolding call
redeem_once x secret p q now at faults faults' t guest other history fresh s ne e e' =
    let hash = x.sha256 secret in
    let first = redeem secret p now in
    let second = redeem secret q at in
    let t1 = (redeem_invite x secret p now (with_faults faults t)).1.tables in
    let s1 = call-IsSound x fresh first (with_faults faults t) s in
    let spent =
      IsBound-IsSpent x hash p t1 s1 (activation_binds x fresh secret p now faults t guest s e) in
    let t2 = calls x history t1 in
    let s2 = calls-IsSound x fresh history t1 s1 in
    let spent2 = calls-IsSpent hash p x fresh history t1 s1 spent in
    let s3 = call-IsSound x fresh second (with_faults faults' t2) s2 in
    let spent3 = call-IsSpent hash p x second (with_faults faults' t2) s2 spent2 in
    ne (
      spent_bound_eq x hash p q _ other s3 spent3
        (activation_binds x fresh secret q at faults' t2 other s2 e'))

-- In sound tables and with fresh row ids: when the peer that an invite has activated presents the
-- same secret again, at any time and with no failing statement, the reply is the same guest node
-- and no table changes.
pub redeem_retry :
    (x : External) (secret p : Text) (now at : Time) (faults : List Bool) (t : Tables)
    (guest : GuestNode)
    → IsFresh x
    → IsSound t
    → (redeem_invite x secret p now (with_faults faults t)).0 ≡ ok (activated guest)
    → let t' = (redeem_invite x secret p now (with_faults faults t)).1.tables in
      redeem_invite x secret p at (with_faults [] t') ≡ (ok (activated guest), with_faults [] t')
unfolding call
redeem_retry x secret p now at faults t guest fresh s e =
    let hash = x.sha256 secret in
    let t' = (redeem_invite x secret p now (with_faults faults t)).1.tables in
    let b = activation_binds x fresh secret p now faults t guest s e in
    redeem_invite_runs x secret p at t'
      (call-IsSound x fresh (redeem secret p now) (with_faults faults t) s)
    ∙ ap (λ (r : Redemption × Tables). (ok r.0, with_faults [] r.1))
        (redeem_step_bound x hash p (to_secs at) t' b.row b.invite b.found b.redeemed
          ∙ ap (λ (r : Redemption). (r, t')) (IsBound-answer b))
