-- ===== src/Host/Store/History.antt =====
-- Histories of calls on a share's database, each with the statements that fail in it.
use wispers_access.Prelude.{
  ℕ, ◌≡◌, refl, ◌∙◌, subst, sym, inl, inr, Bool, false, List, [], ◌∷◌, ◌++◌, Text, any, Bool-cases,
  All, update_where, delete_where,
}
use wispers_access.Prelude.Distinct.{
  Distinct-append_one, Distinct-delete_where, Distinct-update_where,
}
use wispers_access.Host.Store.Db.{
  with_faults, Time, to_secs, InviteRecord, GuestRecord, Tables, Db, External, IsFresh,
}
use wispers_access.Host.Store.Calls.{
  has_peer, has_number, set_revoked, NewInvite, create_invite, redeem_invite, touch_guest,
  remove_guest, revoke_guest,
}
use wispers_access.Host.Store.Effects.{redeem_invite_cases}
use wispers_access.Host.Store.Writes.{
  create_invite_cases, touch_guest_cases, remove_guest_cases, revoke_guest_cases, seen, live_number,
  invite_row,
}
use wispers_access.Host.Store.Integrity.{
  IsSound, IsConsumed, same_id, same_hash, same_number, same_peer, same_invite,
  bound_tables-IsSound, any-map, IsConsumed-append, All-mono, All-delete_where,
}

-- A call that writes. The queries change no table.
pub data Call : Type 0 where
  create : NewInvite → Time → Call
  redeem : (secret peer : Text) → Time → Call
  touch : (peer : Text) → Time → Call
  remove : (number : ℕ) → Call
  revoke : (number : ℕ) → Time → Call

unfoldable pub call : External → Call → Db → Tables
call x (create new now) d = (create_invite x new now d).1.tables
call x (redeem secret peer now) d = (redeem_invite x secret peer now d).1.tables
call x (touch peer now) d = (touch_guest peer now d).1.tables
call x (remove number) d = (remove_guest number d).1.tables
call x (revoke number now) d = (revoke_guest number now d).1.tables

unfoldable pub calls : External → List (List Bool × Call) → Tables → Tables
unfolding call
calls x [] t = t
calls x ((faults, c) ∷ rest) t = calls x rest (call x c (with_faults faults t))

-- An update of guests that leaves the keys alone.
module _ (f : GuestRecord → GuestRecord) (p : GuestRecord → Bool)
    (id : (g : GuestRecord) → (f g).id ≡ g.id)
    (peer : (g : GuestRecord) → (f g).peer_id ≡ g.peer_id)
    (invite : (g : GuestRecord) → (f g).invite_id ≡ g.invite_id) where
  All-update_where :
      (is : List InviteRecord) (gs : List GuestRecord)
      → All (λ g. IsConsumed is g.invite_id) gs
      → All (λ g. IsConsumed is g.invite_id) (update_where p f gs)
  All-update_where is [] h = tt
  All-update_where is (g ∷ gs) h = elim (Bool-cases (p g)) [
    | inl e ↦ rw (e, invite g) (h.0, All-update_where is gs h.1)
    | inr e ↦ rw e (h.0, All-update_where is gs h.1)
  ]

  update-IsSound :
      (t : Tables) → IsSound t → IsSound (record t { guests = update_where p f t.guests })
  update-IsSound t s = record {
    ids = s.ids;
    hashes = s.hashes;
    numbers =
        Distinct-update_where same_number f (λ a b. rw id) (λ a b. rw id) p t.guests s.numbers;
    peers = Distinct-update_where same_peer f (λ a b. rw peer) (λ a b. rw peer) p t.guests s.peers;
    single_use =
        Distinct-update_where same_invite f (λ a b. rw invite) (λ a b. rw invite) p t.guests
          s.single_use;
    bound = All-update_where t.invites t.guests s.bound;
  }

pub delete-IsSound :
    (p : GuestRecord → Bool) (t : Tables)
    → IsSound t
    → IsSound (record t { guests = delete_where p t.guests })
delete-IsSound p t s = record {
  ids = s.ids;
  hashes = s.hashes;
  numbers = Distinct-delete_where same_number p t.guests s.numbers;
  peers = Distinct-delete_where same_peer p t.guests s.peers;
  single_use = Distinct-delete_where same_invite p t.guests s.single_use;
  bound = All-delete_where _ p t.guests s.bound;
}

insert-IsSound :
    (x : External) (new : NewInvite) (now : Time) (t : Tables)
    → IsFresh x
    → any (λ (i : InviteRecord). same_hash i (invite_row x new now t)) t.invites ≡ false
    → IsSound t
    → IsSound (record t { invites = t.invites ++ invite_row x new now t ∷ [] })
insert-IsSound x new now t fresh free s = record {
  ids =
      Distinct-append_one same_id _ t.invites s.ids
        (sym (any-map (λ (i : InviteRecord). i.id) _ t.invites) ∙ fresh _);
  hashes = Distinct-append_one same_hash _ t.invites s.hashes free;
  numbers = s.numbers;
  peers = s.peers;
  single_use = s.single_use;
  bound = All-mono _ _ t.guests (λ g. IsConsumed-append _ g.invite_id t.invites) s.bound;
}

module _ (x : External) (fresh : IsFresh x) where
  pub call-IsSound : (c : Call) (d : Db) → IsSound d.tables → IsSound (call x c d)
  unfolding call
  call-IsSound (create new now) d s = elim (create_invite_cases d x new now) [
    | inl e ↦ rw e s
    | inr (free, e) ↦ rw e (insert-IsSound x new now d.tables fresh free s)
  ]
  call-IsSound (redeem secret peer now) d s = elim (redeem_invite_cases x secret peer now d) [
    | inl e ↦ rw e s
    | inr b ↦ subst IsSound (sym b.tables) (
        bound_tables-IsSound x peer _ b.invite (to_secs now) d.tables fresh b.found b.unconsumed
          b.new_peer s)
  ]
  call-IsSound (touch peer now) d s = elim (touch_guest_cases d peer now) [
    | inl e ↦ rw e s
    | inr e ↦
        rw e
          (update-IsSound (seen now) (has_peer peer) (λ g. refl) (λ g. refl) (λ g. refl) d.tables s)
  ]
  call-IsSound (remove number) d s = elim (remove_guest_cases d number) [
    | inl e ↦ rw e s
    | inr e ↦ rw e (delete-IsSound (has_number number) d.tables s)
  ]
  call-IsSound (revoke number now) d s = elim (revoke_guest_cases d number now) [
    | inl e ↦ rw e s
    | inr e ↦ rw e (
        update-IsSound (set_revoked (to_secs now)) (live_number number) (λ g. refl) (λ g. refl)
          (λ g. refl) d.tables s)
  ]

  -- With fresh row ids and from sound tables: after any calls, whatever statements failed in them, every constraint of the schema holds, an
  -- invite has at most one guest, and the invite of each guest is recorded as consumed.
  pub calls-IsSound :
      (history : List (List Bool × Call)) (t : Tables) → IsSound t → IsSound (calls x history t)
  unfolding calls
  calls-IsSound [] t s = s
  calls-IsSound ((faults, c) ∷ rest) t s =
      calls-IsSound rest _ (call-IsSound c (with_faults faults t) s)
