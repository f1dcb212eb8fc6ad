-- ===== src/Host/Store/SingleUse.antt =====
-- waserver/src/storage.rs: spent invites in a history of calls.
use wispers_access.Prelude.{
  ℕ, ◌≡◌, refl, ap, ◌∙◌, subst, sym, inl, inr, Bool, true, false, not, ◌||◌, List, [], ◌∷◌, none,
  some, Text, arith, all, all-append, find, is_some, Bool-cases, text_eq, ◌==◌, ==_refl, ==_iff,
  update_where, if◌then◌else◌,
}
use wispers_access.Prelude.Distinct.{find_by_key}
use wispers_access.Prelude.Searches.{
  find-append, find-update_where, all-update_where, all-delete_where,
}
use wispers_access.Host.Store.Db.{
  to_secs, InviteRecord, GuestRecord, Tables, Db, External, IsFresh, with_faults,
}
use wispers_access.Host.Store.Calls.{
  has_peer, has_hash, has_id, has_number, set_consumed, set_revoked, new_guest, consume_invite,
}
use wispers_access.Host.Store.Effects.{redeem_invite_cases, bound_tables}
use wispers_access.Host.Store.Writes.{
  create_invite_cases, touch_guest_cases, remove_guest_cases, revoke_guest_cases, seen, live_number,
}
use wispers_access.Host.Store.Integrity.{IsSound, same_id}
use wispers_access.Host.Store.History.{
  Call, create, redeem, touch, remove, revoke, call, calls, call-IsSound,
}

-- The guest is of this peer, or bound to another invite than number `k`.
abbrev pub only_peer : ℕ → Text → GuestRecord → Bool
only_peer k peer g = not (g.invite_id == k) || text_eq g.peer_id peer

-- The invite of this hash is consumed, and only this peer is, or may be, bound to it.
pub record IsSpent (hash peer : Text) (t : Tables) : Type 0 where
  pub invite : InviteRecord
  pub found : find (has_hash hash) t.invites ≡ some invite
  pub consumed : is_some invite.consumed_at ≡ true
  pub only : all (only_peer invite.id peer) t.guests ≡ true

-- The update of a consumed invite.
consumed_again :
    (secs k : ℕ) (i : InviteRecord)
    → is_some i.consumed_at ≡ true
    → is_some (if has_id k i then set_consumed secs i else i).consumed_at ≡ true
consumed_again secs k i h = ground arith

module _ (hash peer : Text) (x : External) where
  bound_tables-IsSpent :
      (q h : Text) (i : InviteRecord) (secs : ℕ) (t : Tables)
      → find (has_hash h) t.invites ≡ some i
      → i.consumed_at ≡ none
      → IsSound t
      → IsSpent hash peer t
      → IsSpent hash peer (bound_tables x q i secs t)
  unfolding consume_invite new_guest
  bound_tables-IsSpent q h i secs t f c s p =
      let j = p.invite in
      let by_id = find_by_key same_id (λ (v : InviteRecord). ==_refl v.id) in
      let fi = by_id i (has_hash h) t.invites s.ids f in
      let fj = by_id j (has_hash hash) t.invites s.ids p.found in
      let other : has_id i.id j ≡ false = elim (Bool-cases (has_id i.id j)) [
        | inr e ↦ e
        | inl e ↦
            let fi' =
              subst (λ (k : ℕ). find (has_id k) t.invites ≡ some i) (sym ((==_iff _ _).0 e)) fi in
            absurd (cc (fi', fj, c, p.consumed, ap is_some c))
      ] in
      record {
        invite = j;
        found = ground (
          arith,
          find-update_where (has_hash hash) (has_id i.id) (set_consumed secs) t.invites (λ a. refl),
          other,
          p.found,
        );
        consumed = p.consumed;
        only = all-append (only_peer j.id peer) t.guests _ p.only (ground (arith, other));
      }

  -- An update of guests that leaves the peer and the invite alone.
  update-IsSpent :
      (f : GuestRecord → GuestRecord) (p : GuestRecord → Bool) (t : Tables)
      → ((k : ℕ) (g : GuestRecord) → only_peer k peer (f g) ≡ only_peer k peer g)
      → IsSpent hash peer t
      → IsSpent hash peer (record t { guests = update_where p f t.guests })
  update-IsSpent f p t keep s = record {
    invite = s.invite;
    found = s.found;
    consumed = s.consumed;
    only = all-update_where (only_peer s.invite.id peer) p f t.guests (keep s.invite.id) ∙ s.only;
  }

  pub call-IsSpent :
      (c : Call) (d : Db)
      → IsSound d.tables
      → IsSpent hash peer d.tables
      → IsSpent hash peer (call x c d)
  unfolding call
  call-IsSpent (create new now) d s p = elim (create_invite_cases d x new now) [
    | inl e ↦ rw e p
    | inr (free, e) ↦ rw e (record {
      invite = p.invite;
      found = find-append (has_hash hash) p.invite d.tables.invites _ p.found;
      consumed = p.consumed;
      only = p.only;
    })
  ]
  call-IsSpent (redeem secret q now) d s p = elim (redeem_invite_cases x secret q now d) [
    | inl e ↦ rw e p
    | inr b ↦
        subst (IsSpent hash peer) (sym b.tables)
          (bound_tables-IsSpent q _ b.invite (to_secs now) d.tables b.found b.unconsumed s p)
  ]
  call-IsSpent (touch q now) d s p = elim (touch_guest_cases d q now) [
    | inl e ↦ rw e p
    | inr e ↦ rw e (update-IsSpent (seen now) (has_peer q) d.tables (λ k g. refl) p)
  ]
  call-IsSpent (remove number) d s p = elim (remove_guest_cases d number) [
    | inl e ↦ rw e p
    | inr e ↦ rw e (record {
      invite = p.invite;
      found = p.found;
      consumed = p.consumed;
      only =
          all-delete_where (only_peer p.invite.id peer) (has_number number) d.tables.guests p.only;
    })
  ]
  call-IsSpent (revoke number now) d s p = elim (revoke_guest_cases d number now) [
    | inl e ↦ rw e p
    | inr e ↦
        rw e
          (update-IsSpent (set_revoked (to_secs now)) (live_number number) d.tables (λ k g. refl) p)
  ]

  module _ (fresh : IsFresh x) where
    pub calls-IsSpent :
        (history : List (List Bool × Call)) (t : Tables)
        → IsSound t
        → IsSpent hash peer t
        → IsSpent hash peer (calls x history t)
    unfolding calls
    calls-IsSpent [] t s p = p
    calls-IsSpent ((faults, c) ∷ rest) t s p =
        calls-IsSpent rest _ (call-IsSound x fresh c (with_faults faults t) s)
          (call-IsSpent c (with_faults faults t) s p)
