-- ===== src/Host/Store/Bindings.antt =====
-- waserver/src/storage.rs: a peer and the invite that it is bound to.
use wispers_access.Prelude.{
  ℕ, ◌≡◌, refl, ap, ◌∙◌, subst, sym, inl, inr, Bool, true, false, List, [], ◌∷◌, Option, none, some,
  Text, arith, any, all, find, is_some, Bool-cases, Option-cases, text_eq_iff, text_eq_refl, ◌==◌,
  ==_iff, ==_refl, leb,
}
use wispers_access.Prelude.Distinct.{Distinct, find_by_key}
use wispers_access.Prelude.Searches.{
  find-update_where, any_of_find, find_last, All_find, find_holds,
}
use wispers_access.Host.Store.Db.{InviteRecord, GuestRecord, Tables, External}
use wispers_access.Host.Store.Calls.{
  set_consumed, guest_number, GuestNode, Redemption, activated, has_peer, has_hash, has_id,
  guest_from_row, find_binding, answer_bound, new_guest, consume_invite,
}
use wispers_access.Host.Store.Integrity.{same_id, IsSound, same_hash, same_invite, IsConsumed-found}
use wispers_access.Host.Store.SingleUse.{only_peer, IsSpent}
use wispers_access.Host.Store.Redemption.{redeem_new, redeem_step}
use wispers_access.Host.Store.Effects.{bound_tables}

-- This guest of the peer is bound to the invite with this hash.
pub record IsBound (hash peer : Text) (guest : GuestNode) (t : Tables) : Type 0 where
  pub row : GuestRecord
  pub invite : InviteRecord
  pub found : find (has_peer peer) t.guests ≡ some row
  pub node : guest_from_row row ≡ guest
  pub redeemed : find (has_id row.invite_id) t.invites ≡ some invite
  pub hash_is : invite.secret_hash ≡ hash
  pub consumed : is_some invite.consumed_at ≡ true
  pub live : row.revoked_at ≡ none

others :
    (g : GuestRecord) (gs : List GuestRecord)
    → any (same_invite g) gs ≡ false
    → all (only_peer g.invite_id g.peer_id) gs ≡ true
others g [] h = refl
others g (r ∷ rs) h = ground (arith, others g rs)

other_invite :
    (g r : GuestRecord) (q : GuestRecord → Bool) (gs : List GuestRecord)
    → any (same_invite g) gs ≡ false
    → find q gs ≡ some r
    → (g.invite_id == r.invite_id) ≡ false
other_invite g r q [] h f = cc f
other_invite g r q (v ∷ vs) h f = ground (arith, other_invite g r q vs)

-- Of two guests with one invite the peer is the same.
only_peer_of_single :
    (q : GuestRecord → Bool) (r : GuestRecord) (gs : List GuestRecord)
    → Distinct same_invite gs
    → find q gs ≡ some r
    → all (only_peer r.invite_id r.peer_id) gs ≡ true
only_peer_of_single q r [] d f = cc f
only_peer_of_single q r (g ∷ gs) d f = elim (Bool-cases (q g)) [
  | inl e ↦
      let g≡r : g ≡ r = ground arith in
      subst (λ (v : GuestRecord). all (only_peer v.invite_id v.peer_id) (g ∷ gs) ≡ true) g≡r
        (ground (arith, text_eq_refl g.peer_id, others g gs d.0))
  | inr e ↦ ground (arith, only_peer_of_single q r gs d.1, other_invite g r q gs d.0)
]

module _ (x : External) (hash peer : Text) (secs : ℕ) (t : Tables) where
  pub redeem_step_bound :
      (g : GuestRecord) (i : InviteRecord)
      → find (has_peer peer) t.guests ≡ some g
      → find (has_id g.invite_id) t.invites ≡ some i
      → redeem_step x hash peer secs t ≡ (answer_bound (guest_from_row g) i.secret_hash hash, t)
  unfolding redeem_step find_binding
  redeem_step_bound g i f n = ground (arith, f, n)

  pub redeem_step_unbound :
      find (has_peer peer) t.guests ≡ none
      → redeem_step x hash peer secs t ≡ redeem_new x peer secs (find (has_hash hash) t.invites) t
  unfolding redeem_step find_binding
  redeem_step_unbound f = ground (arith, f)

  pub redeem_new_valid :
      (i : InviteRecord)
      → i.consumed_at ≡ none
      → leb i.expires_at secs ≡ false
      → redeem_new x peer secs (some i) t ≡ (
        activated (guest_from_row (new_guest (guest_number x t) peer i secs)),
        bound_tables x peer i secs t,
      )
  unfolding redeem_new
  redeem_new_valid i c v = ground (arith, c, v)

-- An activation in reply to a peer that has a binding.
record Repeats (node : GuestNode) (bound hash : Text) (guest : GuestNode) : Type 0 where
  same : node ≡ guest
  same_hash : bound ≡ hash
  live : node.revoked_at ≡ none

answer_activated :
    (node guest : GuestNode) (bound hash : Text)
    → answer_bound node bound hash ≡ activated guest
    → Repeats node bound hash guest
unfolding answer_bound
answer_activated node guest bound hash e = record {
  same = ground arith;
  same_hash = (text_eq_iff bound hash).0 (ground arith);
  live = ground arith;
}

live_row : (g : GuestRecord) → (guest_from_row g).revoked_at ≡ none → g.revoked_at ≡ none
unfolding guest_from_row
live_row g e = ground arith

-- An activation of a peer that has no binding.
record Fresh (x : External) (peer : Text) (secs : ℕ) (found : Option InviteRecord) (t : Tables)
    (guest : GuestNode) : Type 0 where
  invite : InviteRecord
  is : found ≡ some invite
  unconsumed : invite.consumed_at ≡ none
  valid : leb invite.expires_at secs ≡ false
  node : guest_from_row (new_guest (guest_number x t) peer invite secs) ≡ guest

new_activated :
    (x : External) (peer : Text) (secs : ℕ) (found : Option InviteRecord) (t : Tables)
    (guest : GuestNode)
    → (redeem_new x peer secs found t).0 ≡ activated guest
    → Fresh x peer secs found t guest
unfolding redeem_new
new_activated x peer secs none t guest e = absurd (cc e)
new_activated x peer secs (some i) t guest e = record {
  invite = i;
  is = refl;
  unconsumed = ground arith;
  valid = ground arith;
  node = ground arith;
}

bound_tables-IsBound :
    (x : External) (hash peer : Text) (secs : ℕ) (t : Tables)
    → IsSound t
    → (i : InviteRecord) → find (has_hash hash) t.invites ≡ some i
    → find (has_peer peer) t.guests ≡ none
    → IsBound hash peer
        (guest_from_row (new_guest (guest_number x t) peer i secs))
        (bound_tables x peer i secs t)
unfolding consume_invite new_guest
bound_tables-IsBound x hash peer secs t s i f n =
    let by_id =
      find_by_key same_id (λ (v : InviteRecord). ==_refl v.id) i (has_hash hash) t.invites s.ids
        f in
    record {
      row = new_guest (guest_number x t) peer i secs;
      invite = set_consumed secs i;
      found =
          find_last (has_peer peer) _ t.guests (any_of_find (has_peer peer) t.guests n)
          ∙ rw (text_eq_refl peer);
      node = refl;
      redeemed = ground (
        arith,
        find-update_where (has_id i.id) (has_id i.id) (set_consumed secs) t.invites (λ a. refl),
        by_id,
        ==_refl i.id,
      );
      hash_is = (text_eq_iff _ _).0 (find_holds (has_hash hash) i t.invites f);
      consumed = refl;
      live = refl;
    }

module _ (x : External) (hash peer : Text) (t : Tables) (s : IsSound t) where
  -- A binding leaves the invite spent by its peer.
  pub IsBound-IsSpent : {guest : GuestNode} → IsBound hash peer guest t → IsSpent hash peer t
  IsBound-IsSpent b =
      let by_hash =
        find_by_key same_hash (λ (v : InviteRecord). text_eq_refl v.secret_hash) b.invite
          (has_id b.row.invite_id) t.invites s.hashes b.redeemed in
      let id_is =
        (==_iff _ _).0 (find_holds (has_id b.row.invite_id) b.invite t.invites b.redeemed) in
      let peer_is = (text_eq_iff _ _).0 (find_holds (has_peer peer) b.row t.guests b.found) in
      let only = only_peer_of_single (has_peer peer) b.row t.guests s.single_use b.found in
      record {
        invite = b.invite;
        found = subst (λ (h : Text). find (has_hash h) t.invites ≡ some b.invite) b.hash_is by_hash;
        consumed = b.consumed;
        only =
            subst (λ (k : ℕ). all (only_peer k peer) t.guests ≡ true) (sym id_is)
              (subst (λ (q : Text). all (only_peer b.row.invite_id q) t.guests ≡ true) peer_is
                only);
      }

  -- A reply that activates comes with a binding.
  pub activated-IsBound :
      (secs : ℕ) (guest : GuestNode)
      → (redeem_step x hash peer secs t).0 ≡ activated guest
      → IsBound hash peer guest (redeem_step x hash peer secs t).1
  activated-IsBound secs guest e = elim (Option-cases (find (has_peer peer) t.guests)) [
    | inr (g, f) ↦
        let (i, n, c) =
          IsConsumed-found t.invites g.invite_id
            (All_find (has_peer peer) _ g t.guests s.bound f) in
        let step = redeem_step_bound x hash peer secs t g i f n in
        let r =
          answer_activated (guest_from_row g) guest i.secret_hash hash
            (ap (λ (p : Redemption × Tables). p.0) (sym step) ∙ e) in
        subst (λ (p : Redemption × Tables). IsBound hash peer guest p.1) (sym step)
          (record {
            row = g;
            invite = i;
            found = f;
            node = r.same;
            redeemed = n;
            hash_is = r.same_hash;
            consumed = c;
            live = live_row g r.live;
          })
    | inl f ↦
        let step = redeem_step_unbound x hash peer secs t f in
        let r =
          new_activated x peer secs _ t guest
            (ap (λ (p : Redemption × Tables). p.0) (sym step) ∙ e) in
        let whole =
          step
          ∙ ap (λ (o : Option InviteRecord). redeem_new x peer secs o t) r.is
          ∙ redeem_new_valid x hash peer secs t r.invite r.unconsumed r.valid in
        subst (λ (p : Redemption × Tables). IsBound hash peer guest p.1) (sym whole)
          (rw r.node at (bound_tables-IsBound x hash peer secs t s r.invite r.is f))
  ]

-- A live binding is answered with its guest node.
pub IsBound-answer :
    {hash peer : Text} {guest : GuestNode} {t : Tables} (b : IsBound hash peer guest t)
    → answer_bound (guest_from_row b.row) b.invite.secret_hash hash ≡ activated guest
unfolding answer_bound guest_from_row
IsBound-answer {hash} b =
    ground (arith, b.live, b.node, b.hash_is, text_eq_iff b.invite.secret_hash hash)
