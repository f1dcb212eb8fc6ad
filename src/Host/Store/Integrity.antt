-- ===== src/Host/Store/Integrity.antt =====
-- The integrity of the tables: the schema's constraints, and that an invite has at most one guest.
use wispers_access.Prelude.{
  Option-cases, ℕ, ◌≡◌, refl, ap, ◌∙◌, subst, sym, inl, inr, Bool, true, false, List, [], ◌∷◌, ◌++◌,
  Option, none, some, Text, arith, any, find, is_some, Bool-cases, text_eq, ◌==◌, ==_refl, ==_iff,
  All, All-append, update_where, delete_where, map,
}
use wispers_access.Prelude.Distinct.{
  Distinct, Distinct-append_one, Distinct-update_where, find_by_key,
}
use wispers_access.Host.Store.Db.{InviteRecord, GuestRecord, Tables, External, IsFresh}
use wispers_access.Host.Store.Calls.{
  has_peer, has_hash, has_id, set_consumed, new_guest, guest_number, consume_invite,
}
use wispers_access.Host.Store.Effects.{bound_tables}

abbrev pub same_id : InviteRecord → InviteRecord → Bool
same_id i j = i.id == j.id

abbrev pub same_hash : InviteRecord → InviteRecord → Bool
same_hash i j = text_eq i.secret_hash j.secret_hash

abbrev pub same_number : GuestRecord → GuestRecord → Bool
same_number g h = g.id == h.id

abbrev pub same_peer : GuestRecord → GuestRecord → Bool
same_peer g h = text_eq g.peer_id h.peer_id

abbrev pub same_invite : GuestRecord → GuestRecord → Bool
same_invite g h = g.invite_id == h.invite_id

abbrev consumed : Option InviteRecord → Bool
consumed none = false
consumed (some i) = is_some i.consumed_at

-- The invite with this id is there and consumed.
unfoldable pub IsConsumed : List InviteRecord → ℕ → Type 0
IsConsumed invites id = consumed (find (has_id id) invites) ≡ true

pub IsConsumed-found :
    (is : List InviteRecord) (id : ℕ)
    → IsConsumed is id
    → (i : InviteRecord) × (find (has_id id) is ≡ some i) × (is_some i.consumed_at ≡ true)
unfolding IsConsumed
IsConsumed-found is id h = elim (Option-cases (find (has_id id) is)) [
  | inl e ↦ absurd (cc (h, ap consumed e))
  | inr (i, e) ↦ (i, e, sym (ap consumed e) ∙ h)
]

pub record IsSound (t : Tables) : Type 0 where
  pub ids : Distinct same_id t.invites
  pub hashes : Distinct same_hash t.invites
  pub numbers : Distinct same_number t.guests
  pub peers : Distinct same_peer t.guests
  -- An invite has at most one guest,
  pub single_use : Distinct same_invite t.guests
  -- and the invite of a guest is there and consumed.
  pub bound : All (λ g. IsConsumed t.invites g.invite_id) t.guests

-- A fresh id is the id of no row.
pub any-map :
    {A : Type 0} (f : A → ℕ) (n : ℕ) (xs : List A)
    → any (λ id. id == n) (map f xs) ≡ any (λ x. f x == n) xs
any-map f n [] = refl
any-map f n (x ∷ xs) = rw (any-map f n xs)

pub IsConsumed-append :
    (i : InviteRecord) (id : ℕ) (is : List InviteRecord)
    → IsConsumed is id
    → IsConsumed (is ++ i ∷ []) id
unfolding IsConsumed
IsConsumed-append i id [] h = cc
IsConsumed-append i id (j ∷ js) h = ground (arith, IsConsumed-append i id js)

IsConsumed-consume :
    (secs k id : ℕ) (is : List InviteRecord)
    → IsConsumed is id
    → IsConsumed (update_where (has_id k) (set_consumed secs) is) id
unfolding IsConsumed
IsConsumed-consume secs k id [] h = h
IsConsumed-consume secs k id (j ∷ js) h = ground (arith, IsConsumed-consume secs k id js)

-- A found invite is consumed by its update.
IsConsumed-self :
    (secs k : ℕ) (i : InviteRecord) (is : List InviteRecord)
    → find (has_id k) is ≡ some i
    → IsConsumed (update_where (has_id k) (set_consumed secs) is) k
unfolding IsConsumed
IsConsumed-self secs k i [] h = cc
IsConsumed-self secs k i (j ∷ js) h = ground (arith, IsConsumed-self secs k i js)

pub All-mono :
    (P Q : GuestRecord → Type 0) (gs : List GuestRecord)
    → ((g : GuestRecord) → P g → Q g)
    → All P gs
    → All Q gs
All-mono P Q [] f h = tt
All-mono P Q (g ∷ gs) f h = (f g h.0, All-mono P Q gs f h.1)

pub All-delete_where :
    (P : GuestRecord → Type 0) (p : GuestRecord → Bool) (gs : List GuestRecord)
    → All P gs
    → All P (delete_where p gs)
All-delete_where P p [] h = tt
All-delete_where P p (g ∷ gs) h = elim (Bool-cases (p g)) [
  | inl e ↦ rw e (All-delete_where P p gs h.1)
  | inr e ↦ rw e (h.0, All-delete_where P p gs h.1)
]

-- No guest is bound to an invite that is not consumed.
none_bound :
    (i : InviteRecord) (is : List InviteRecord) (gs : List GuestRecord)
    → find (has_id i.id) is ≡ some i
    → i.consumed_at ≡ none
    → All (λ g. IsConsumed is g.invite_id) gs
    → any (λ g. g.invite_id == i.id) gs ≡ false
unfolding IsConsumed
none_bound i is [] f c h = refl
none_bound i is (g ∷ gs) f c h = elim (Bool-cases (g.invite_id == i.id)) [
  | inl e ↦
      let same = subst (λ (k : ℕ). consumed (find (has_id k) is) ≡ true) ((==_iff _ _).0 e) h.0 in
      absurd (cc (same, ap consumed f, ap is_some c))
  | inr e ↦ rw e (none_bound i is gs f c h.1)
]

pub bound_tables-IsSound :
    (x : External) (peer hash : Text) (i : InviteRecord) (secs : ℕ) (t : Tables)
    → IsFresh x
    → find (has_hash hash) t.invites ≡ some i
    → i.consumed_at ≡ none
    → any (has_peer peer) t.guests ≡ false
    → IsSound t
    → IsSound (bound_tables x peer i secs t)
unfolding consume_invite new_guest
bound_tables-IsSound x peer hash i secs t fresh f c n s =
    let by_id = find_by_key same_id (λ j. ==_refl j.id) i (has_hash hash) t.invites s.ids f in
    record {
      ids =
          Distinct-update_where same_id (set_consumed secs) (λ a b. refl) (λ a b. refl)
            (has_id i.id) t.invites s.ids;
      hashes =
          Distinct-update_where same_hash (set_consumed secs) (λ a b. refl) (λ a b. refl)
            (has_id i.id) t.invites s.hashes;
      numbers =
          Distinct-append_one same_number _ t.guests s.numbers
            (sym (any-map (λ (g : GuestRecord). g.id) (guest_number x t) t.guests) ∙ fresh _);
      peers = Distinct-append_one same_peer _ t.guests s.peers n;
      single_use =
          Distinct-append_one same_invite _ t.guests s.single_use
            (none_bound i t.invites t.guests by_id c s.bound);
      bound =
          All-append _ t.guests _
            (All-mono _ _ t.guests (λ g. IsConsumed-consume secs i.id g.invite_id t.invites)
              s.bound)
            (IsConsumed-self secs i.id i t.invites by_id, tt);
    }
