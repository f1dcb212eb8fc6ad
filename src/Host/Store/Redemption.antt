-- ===== src/Host/Store/Redemption.antt =====
-- waserver/src/storage.rs, lines 424 to 511: redeeming an invite as one pure step.
use wispers_access.Prelude.{
  ℕ, ◌≡◌, refl, ap, subst, sym, ◌⊎◌, inl, inr, true, false, [], Option, none, some, Text, arith,
  any, find, is_some, Bool-cases, Option-cases, leb, if◌then◌else◌, Result, ok, err, ==_refl,
}
use wispers_access.Prelude.Searches.{any_of_found, any_of_find, All_find}
use wispers_access.Wire.Activation.{invite_unknown, invite_expired, invite_consumed}
use wispers_access.Host.Store.Db.{
  Time, to_secs, InviteRecord, Tables, Db, External, Error, db, M, ◌>>=◌, query, Outcome, dropped,
  committed, transaction, next_fault, finish_tx, with_faults,
}
use wispers_access.Host.Store.Calls.{
  Redemption, activated, refused, has_peer, has_hash, has_id, guest_from_row, new_guest,
  guest_number, GuestNode, find_binding, answer_bound, redeem_found, redeem_as, redeem_invite,
}
use wispers_access.Host.Store.Effects.{bound_tables, later, query_bind}
use wispers_access.Host.Store.Integrity.{IsSound, IsConsumed-found}

-- A peer without a binding presents the secret of this invite, or of none.
unfoldable pub redeem_new : External → Text → ℕ → Option InviteRecord → Tables → Redemption × Tables
redeem_new x peer secs none t = (refused invite_unknown, t)
redeem_new x peer secs (some i) t =
    if is_some i.consumed_at
    then (refused invite_consumed, t)
    else if leb i.expires_at secs
    then (refused invite_expired, t)
    else (
      activated (guest_from_row (new_guest (guest_number x t) peer i secs)),
      bound_tables x peer i secs t,
    )

abbrev redeem_with :
    External → Text → Text → ℕ → Option (GuestNode × Text) → Tables → Redemption × Tables
redeem_with x hash peer secs (some (guest, bound_hash)) t = (answer_bound guest bound_hash hash, t)
redeem_with x hash peer secs none t = redeem_new x peer secs (find (has_hash hash) t.invites) t

-- The reply to a redemption, and the tables after it.
unfoldable pub redeem_step : External → Text → Text → ℕ → Tables → Redemption × Tables
unfolding redeem_new
redeem_step x hash peer secs t = redeem_with x hash peer secs (find_binding peer t) t

abbrev Ends : Result Error (Outcome Redemption) × Db → Tables → Redemption × Tables → Type 0
Ends r t s =
    (r.0 ≡ err db)
    ⊎ ((r.0 ≡ ok (dropped s.0)) × (s.1 ≡ t))
    ⊎ ((r.0 ≡ ok (committed s.0)) × (r.1.tables ≡ s.1))

abbrev Whole : Result Error Redemption × Db → Tables → Redemption × Tables → Type 0
Whole r t s = ((r.0 ≡ err db) × (r.1.tables ≡ t)) ⊎ ((r.0 ≡ ok s.0) × (r.1.tables ≡ s.1))

finish-Whole :
    (t : Tables) (r : Result Error (Outcome Redemption)) (d : Db) (s : Redemption × Tables)
    → Ends (r, d) t s
    → Whole (finish_tx t r d) t s
finish-Whole t r d s (inl e) = rw e (inl (refl, refl))
finish-Whole t r d s (inr (inl (e, same))) = rw e (inr (refl, sym same))
finish-Whole t r d s (inr (inr (e, new))) = elim (Bool-cases (next_fault d.faults)) [
  | inl f ↦ rw (e, f) (inl (refl, refl))
  | inr f ↦ rw (e, f) (inr (refl, new))
]

transaction-Whole :
    (body : M (Outcome Redemption)) (d : Db) (s : Redemption × Tables)
    → Ends (body (later d)) d.tables s
    → Whole (transaction body d) d.tables s
unfolding transaction later
transaction-Whole body d s h = elim (Bool-cases (next_fault d.faults)) [
  | inl e ↦ rw e (inl (refl, refl))
  | inr e ↦ rw e (finish-Whole d.tables (body (later d)).0 (body (later d)).1 s h)
]

redeem_found-Ends :
    (x : External) (peer : Text) (secs : ℕ) (d : Db) (found : Option InviteRecord)
    → any (has_peer peer) d.tables.guests ≡ false
    → ((i : InviteRecord) → found ≡ some i → any (has_id i.id) d.tables.invites ≡ true)
    → Ends (redeem_found x peer secs found d) d.tables (redeem_new x peer secs found d.tables)
unfolding redeem_found redeem_new
redeem_found-Ends x peer secs d none n k = inr (inl (refl, refl))
redeem_found-Ends x peer secs d (some i) n k = ground (arith, k i refl)

-- In sound tables a peer without a binding has no row.
new_peer_of_unbound :
    (peer : Text) (t : Tables)
    → IsSound t
    → find_binding peer t ≡ none
    → any (has_peer peer) t.guests ≡ false
unfolding find_binding
new_peer_of_unbound peer t s e = elim (Option-cases (find (has_peer peer) t.guests)) [
  | inl f ↦ any_of_find (has_peer peer) t.guests f
  | inr (g, f) ↦
      let (i, n, _) =
        IsConsumed-found t.invites g.invite_id (All_find (has_peer peer) _ g t.guests s.bound f) in
      absurd (ground (arith, f, n, e))
]

redeem_as-Ends :
    (x : External) (hash peer : Text) (secs : ℕ) (d : Db) (b : Option (GuestNode × Text))
    → (b ≡ none → any (has_peer peer) d.tables.guests ≡ false)
    → Ends (redeem_as x hash peer secs b d) d.tables (redeem_with x hash peer secs b d.tables)
unfolding redeem_as later
redeem_as-Ends x hash peer secs d (some (g, h)) n = inr (inl (refl, refl))
redeem_as-Ends x hash peer secs d none n =
    let found = λ (t : Tables). find (has_hash hash) t.invites in
    elim (query_bind found (redeem_found x peer secs) d) [
      | inl e ↦ inl (ap (λ (r : Result Error (Outcome Redemption) × Db). r.0) e)
      | inr e ↦
          subst
            (λ (r : Result Error (Outcome Redemption) × Db).
              Ends r d.tables (redeem_new x peer secs (found d.tables) d.tables))
            (sym e)
            (redeem_found-Ends x peer secs (later d) (found d.tables) (n refl) (λ i f.
              any_of_found (has_hash hash) (has_id i.id) i d.tables.invites f (==_refl i.id)))
    ]

-- Whatever statements fail, redeeming an invite in sound tables either fails with a database error
-- and writes nothing, or replies and writes as the pure step says.
pub redeem_invite-redeem_step :
    (x : External) (secret peer : Text) (now : Time) (d : Db)
    → IsSound d.tables
    → (((redeem_invite x secret peer now d).0 ≡ err db)
        × ((redeem_invite x secret peer now d).1.tables ≡ d.tables))
      ⊎ (((redeem_invite x secret peer now d).0
            ≡ ok (redeem_step x (x.sha256 secret) peer (to_secs now) d.tables).0)
          × ((redeem_invite x secret peer now d).1.tables
              ≡ (redeem_step x (x.sha256 secret) peer (to_secs now) d.tables).1))
unfolding redeem_invite redeem_step later
redeem_invite-redeem_step x secret peer now d s =
    let hash = x.sha256 secret in
    let rest = redeem_as x hash peer (to_secs now) in
    let binding = find_binding peer d.tables in
    let goal = redeem_with x hash peer (to_secs now) binding d.tables in
    transaction-Whole (query (find_binding peer) >>= rest) d goal
      (elim (query_bind (find_binding peer) rest (later d)) [
        | inl e ↦ inl (ap (λ (r : Result Error (Outcome Redemption) × Db). r.0) e)
        | inr e ↦
            subst (λ (r : Result Error (Outcome Redemption) × Db). Ends r d.tables goal) (sym e)
              (redeem_as-Ends x hash peer (to_secs now) (later (later d)) binding
                (new_peer_of_unbound peer d.tables s))
      ])

redeem_found_runs :
    (x : External) (peer : Text) (secs : ℕ) (t : Tables) (found : Option InviteRecord)
    → any (has_peer peer) t.guests ≡ false
    → ((i : InviteRecord) → found ≡ some i → any (has_id i.id) t.invites ≡ true)
    → let r = redeem_found x peer secs found (with_faults [] t) in
      finish_tx t r.0 r.1
      ≡ (ok (redeem_new x peer secs found t).0, with_faults [] (redeem_new x peer secs found t).1)
unfolding redeem_found redeem_new
redeem_found_runs x peer secs t none n k = refl
redeem_found_runs x peer secs t (some i) n k = ground (arith, k i refl)

redeem_as_runs :
    (x : External) (hash peer : Text) (secs : ℕ) (t : Tables) (b : Option (GuestNode × Text))
    → (b ≡ none → any (has_peer peer) t.guests ≡ false)
    → let r = redeem_as x hash peer secs b (with_faults [] t) in
      finish_tx t r.0 r.1 ≡ (
        ok (redeem_with x hash peer secs b t).0,
        with_faults [] (redeem_with x hash peer secs b t).1,
      )
unfolding redeem_as
redeem_as_runs x hash peer secs t (some (g, h)) n = refl
redeem_as_runs x hash peer secs t none n =
    redeem_found_runs x peer secs t (find (has_hash hash) t.invites) (n refl)
      (λ i f. any_of_found (has_hash hash) (has_id i.id) i t.invites f (==_refl i.id))

-- With no failing statement, redeeming an invite in sound tables is the pure step.
pub redeem_invite_runs :
    (x : External) (secret peer : Text) (now : Time) (t : Tables)
    → IsSound t
    → redeem_invite x secret peer now (with_faults [] t) ≡ (
      ok (redeem_step x (x.sha256 secret) peer (to_secs now) t).0,
      with_faults [] (redeem_step x (x.sha256 secret) peer (to_secs now) t).1,
    )
unfolding redeem_invite redeem_step
redeem_invite_runs x secret peer now t s =
    redeem_as_runs x (x.sha256 secret) peer (to_secs now) t (find_binding peer t)
      (new_peer_of_unbound peer t s)
