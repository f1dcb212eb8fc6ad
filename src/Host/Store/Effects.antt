-- ===== src/Host/Store/Effects.antt =====
-- What `redeem_invite` does to the tables, whatever statements fail.
use wispers_access.Prelude.{
  ℕ, ◌<◌, ◌≡◌, refl, ap, ◌∙◌, subst, ◌⊎◌, inl, inr, false, [], ◌∷◌, ◌++◌, Option, none, some, Text,
  arith, any, find, is_some, Result, ok, err, Option-cases, Bool-cases, leb,
}
use wispers_access.Host.Store.Db.{
  Time, to_secs, InviteRecord, Tables, Db, External, Error, db, M, ◌>>=◌, finish_tx, next_fault,
  later_faults, Outcome, dropped, committed, transaction, query,
}
use wispers_access.Host.Store.Calls.{
  Redemption, activated, has_peer, has_hash, find_binding, guest_from_row, new_guest, guest_number,
  consume_invite, GuestNode, bind_guest, redeem_found, redeem_as, redeem_invite,
}

-- The tables after a fresh redemption.
abbrev pub bound_tables : External → Text → InviteRecord → ℕ → Tables → Tables
bound_tables x peer i secs t =
    consume_invite secs i.id
      (record t { guests = t.guests ++ new_guest (guest_number x t) peer i secs ∷ [] })

pub record Binds (x : External) (hash peer : Text) (secs : ℕ) (t t' : Tables)
    (r : Result Error Redemption) : Type 0 where
  pub invite : InviteRecord
  pub found : find (has_hash hash) t.invites ≡ some invite
  pub unconsumed : invite.consumed_at ≡ none
  pub valid : secs < invite.expires_at
  pub new_peer : any (has_peer peer) t.guests ≡ false
  pub tables : t' ≡ bound_tables x peer invite secs t
  pub reply : r ≡ ok (activated (guest_from_row (new_guest (guest_number x t) peer invite secs)))

unfoldable pub later : Db → Db
later d = record d { faults = later_faults d.faults }

-- A transaction that changes a table has committed, and its result is the body's.
record Commits {A : Type 0} (body : M (Outcome A)) (d : Db) : Type 0 where
  pub value : A
  pub ended : (body (later d)).0 ≡ ok (committed value)
  pub tables : (transaction body d).1.tables ≡ (body (later d)).1.tables
  pub reply : (transaction body d).0 ≡ ok value

pub query_bind :
    {A B : Type 0} (f : Tables → A) (k : A → M B) (d : Db)
    → ((query f >>= k) d ≡ (err db, later d)) ⊎ ((query f >>= k) d ≡ k (f d.tables) (later d))
unfolding query later
query_bind f k d = elim (Bool-cases (next_fault d.faults)) [
  | inl e ↦ inl (rw e)
  | inr e ↦ inr (rw e)
]

finish_cases :
    {A : Type 0} (t : Tables) (r : Result Error (Outcome A)) (d : Db)
    → ((finish_tx t r d).1.tables ≡ t)
      ⊎ ((a : A) × (r ≡ ok (committed a))
          × ((finish_tx t r d).1.tables ≡ d.tables)
          × ((finish_tx t r d).0 ≡ ok a))
finish_cases t (err e) d = inl refl
finish_cases t (ok (dropped a)) d = inl refl
finish_cases t (ok (committed a)) d = elim (Bool-cases (next_fault d.faults)) [
  | inl e ↦ inl (rw e)
  | inr e ↦ inr (a, refl, rw e, rw e)
]

transaction_cases :
    {A : Type 0} (body : M (Outcome A)) (d : Db)
    → ((transaction body d).1.tables ≡ d.tables) ⊎ Commits body d
unfolding transaction later
transaction_cases body d = elim (Bool-cases (next_fault d.faults)) [
  | inl e ↦ inl (rw e)
  | inr e ↦ elim (finish_cases d.tables (body (later d)).0 (body (later d)).1) [
    | inl k ↦ inl (rw e k)
    | inr (a, p, q, r) ↦ inr (record { value = a; ended = p; tables = rw e q; reply = rw e r })
  ]
]

bind_guest_cases :
    (x : External) (peer : Text) (i : InviteRecord) (secs : ℕ) (d : Db) (a : Redemption)
    → (bind_guest x peer i secs d).0 ≡ ok (committed a)
    → (any (has_peer peer) d.tables.guests ≡ false)
      × ((bind_guest x peer i secs d).1.tables ≡ bound_tables x peer i secs d.tables)
      × (a ≡ activated (guest_from_row (new_guest (guest_number x d.tables) peer i secs)))
unfolding bind_guest
bind_guest_cases x peer i secs d a h = ground arith

redeem_found_cases :
    (x : External) (peer : Text) (secs : ℕ) (found : Option InviteRecord) (d : Db) (a : Redemption)
    → (redeem_found x peer secs found d).0 ≡ ok (committed a)
    → (i : InviteRecord) × (found ≡ some i)
      × (i.consumed_at ≡ none)
      × (secs < i.expires_at)
      × (any (has_peer peer) d.tables.guests ≡ false)
      × ((redeem_found x peer secs found d).1.tables ≡ bound_tables x peer i secs d.tables)
      × (a ≡ activated (guest_from_row (new_guest (guest_number x d.tables) peer i secs)))
unfolding redeem_found
redeem_found_cases x peer secs none d a h = cc
redeem_found_cases x peer secs (some i) d a h = elim (Option-cases i.consumed_at) [
  | inr (at, e) ↦ absurd (ground (arith))
  | inl e ↦ elim (Bool-cases (leb i.expires_at secs)) [
    | inl late ↦ absurd (ground (arith))
    | inr early ↦
        let (n, t, r) = bind_guest_cases x peer i secs d a (ground arith) in
        (i, refl, e, ground arith, n, rw (e, is_some, early) t, r)
  ]
]

redeem_as_cases :
    (x : External) (hash peer : Text) (secs : ℕ) (b : Option (GuestNode × Text)) (d : Db)
    (a : Redemption)
    → (redeem_as x hash peer secs b d).0 ≡ ok (committed a)
    → (i : InviteRecord) × (find (has_hash hash) d.tables.invites ≡ some i)
      × (i.consumed_at ≡ none)
      × (secs < i.expires_at)
      × (any (has_peer peer) d.tables.guests ≡ false)
      × ((redeem_as x hash peer secs b d).1.tables ≡ bound_tables x peer i secs d.tables)
      × (a ≡ activated (guest_from_row (new_guest (guest_number x d.tables) peer i secs)))
unfolding redeem_as later
redeem_as_cases x hash peer secs (some b) d a h = cc
redeem_as_cases x hash peer secs none d a h =
    let found = λ (t : Tables). find (has_hash hash) t.invites in
    elim (query_bind found (redeem_found x peer secs) d) [
      | inl e ↦ absurd (cc (ap (λ (r : Result Error (Outcome Redemption) × Db). r.0) e))
      | inr e ↦
          let (i, f, c, v, n, t, r) =
            redeem_found_cases x peer secs (found d.tables) (later d) a (
              subst (λ (r : Result Error (Outcome Redemption) × Db). r.0 ≡ ok (committed a)) e h) in
          (i, f, c, v, n, ap (λ (r : Result Error (Outcome Redemption) × Db). r.1.tables) e ∙ t, r)
    ]

-- Either nothing in the tables changes, or the invite is unconsumed and in time, the peer is new,
-- and both writes happen together, with the new guest node as the reply.
pub redeem_invite_cases :
    (x : External) (secret peer : Text) (now : Time) (d : Db)
    → ((redeem_invite x secret peer now d).1.tables ≡ d.tables)
      ⊎ Binds x
          (x.sha256 secret)
          peer
          (to_secs now)
          d.tables
          (redeem_invite x secret peer now d).1.tables
          (redeem_invite x secret peer now d).0
unfolding redeem_invite later
redeem_invite_cases x secret peer now d =
    let body = query (find_binding peer) >>= redeem_as x (x.sha256 secret) peer (to_secs now) in
    elim (transaction_cases body d) [
      | inl e ↦ inl e
      | inr c ↦
          elim (query_bind (find_binding peer) (redeem_as x (x.sha256 secret) peer (to_secs now))
            (later d)) [
              | inl e ↦
                  absurd (cc (c.ended, ap (λ (r : Result Error (Outcome Redemption) × Db). r.0) e))
              | inr e ↦
                  let (i, f, q, v, n, t, r) =
                    redeem_as_cases x (x.sha256 secret) peer (to_secs now)
                      (find_binding peer d.tables) (later (later d)) c.value
                      (subst
                        (λ (r : Result Error (Outcome Redemption) × Db).
                          r.0 ≡ ok (committed c.value))
                        e c.ended) in
                  inr (record {
                    invite = i;
                    found = f;
                    unconsumed = q;
                    valid = v;
                    new_peer = n;
                    tables =
                        c.tables
                        ∙ ap (λ (r : Result Error (Outcome Redemption) × Db). r.1.tables) e
                        ∙ t;
                    reply = c.reply ∙ ap ok r;
                  })
            ]
    ]
