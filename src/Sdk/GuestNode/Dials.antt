-- ===== src/Sdk/GuestNode/Dials.antt =====
-- sdk/src/guest_node.rs, lines 58 to 234: what a node that was turned away does in one step.
use wispers_access.Prelude.{
  Bool, List, Option, Result, [], arith, err, is_some, none, ok, refl, some, suc, true, false, ℕ,
  ◌++◌, ◌+◌, ◌∙◌, ◌∷◌, ◌≡◌,
}
use wispers_access.Sdk.GuestCalls.{
  CallError, activation_refused, failed, invite_refused, too_old, unexpected,
}
use wispers_access.Sdk.GuestNode.{
  Event, Far, N, Node, announce, announce_if, announced, checked, dial_answer, dialed, fetched,
  logged, outdated_error, record_terminal_error, share_changed, stored, with_db,
}
use wispers_access.Sdk.GuestNode.Shared.{check_answer}
use wispers_access.Sdk.Store.Db.{Db, Error}
use wispers_access.Sdk.Store.Info.{write_share_info}
use wispers_access.Sdk.Store.Rows.{Json, write_outdated}
use wispers_access.Sdk.Store.Shares.{Share, read_share}
use wispers_access.Sdk.Transports.{
  ConnectionCheck, TerminalState, TransportError, terminal, transient,
}
use wispers_access.Wire.Share.{ShareInfo}

-- How often the transport was asked for a stream.
unfoldable pub dials : List Event → ℕ
dials [] = 0
dials (dialed ∷ es) = suc (dials es)
dials (checked ∷ es) = dials es
dials (share_changed share ∷ es) = dials es

pub dials-append : (es fs : List Event) → dials (es ++ fs) ≡ dials es + dials fs
unfolding dials
dials-append [] fs = omega arith
dials-append (dialed ∷ es) fs = omega (arith, dials-append es fs)
dials-append (checked ∷ es) fs = dials-append es fs
dials-append (share_changed share ∷ es) fs = dials-append es fs

-- It is still turned away, and dialed no more.
unfoldable pub Idle : Node → Node → Type 0
Idle n n' = (is_some n'.dead ≡ true) × (dials n'.log ≡ dials n.log)

module _ (j : Json) where
  announced-Idle :
      (r : Result Error Share × Db) (n : Node) → is_some n.dead ≡ true → Idle n (announced r n)
  unfolding Idle dials
  announced-Idle (ok share, db) n h =
      (h, dials-append n.log (share_changed share ∷ []) ∙ omega arith)
  announced-Idle (err e, db) n h = (h, refl)

  pub announced-dead : (r : Result Error Share × Db) (n : Node) → (announced r n).dead ≡ n.dead
  announced-dead (ok share, db) n = refl
  announced-dead (err e, db) n = refl

  pub announced-db : (r : Result Error Share × Db) (n : Node) → (announced r n).db ≡ r.1
  announced-db (ok share, db) n = refl
  announced-db (err e, db) n = refl

  pub record_terminal_error-Idle :
      (s : TerminalState) (n : Node) → Idle n (record_terminal_error j s n)
  unfolding record_terminal_error Idle
  record_terminal_error-Idle s n = announced-Idle _ (record n { dead = some s }) refl

  pub dial_answer-Idle :
      (a : Result TransportError (Unit {0})) (far : Far) (n : Node)
      → is_some n.dead ≡ true
      → Idle n (dial_answer j far a n).1
  unfolding dial_answer Idle
  dial_answer-Idle (ok stream) far n h = (h, refl)
  dial_answer-Idle (err (terminal s)) far n h = record_terminal_error-Idle s n
  dial_answer-Idle (err transient) far n h = (h, refl)

  pub check_answer-Idle :
      (a : Result TransportError ConnectionCheck) (n : Node)
      → is_some n.dead ≡ true
      → Idle n (check_answer j a n)
  unfolding check_answer Idle
  check_answer-Idle (ok verdict) n h = (h, refl)
  check_answer-Idle (err (terminal s)) n h = record_terminal_error-Idle s n
  check_answer-Idle (err transient) n h = (h, refl)

  -- Calls of the store and of the observer do not touch the node's `dead` nor dial.
  abbrev pub Calm : Node → N (Option ShareInfo) → Type 0
  Calm before k = (n : Node) → Idle before n → Idle before (k n).1

  with_db-Calm :
      {A : Type 0} (before : Node) (r : Result Error A × Db) (k : A → N (Option ShareInfo))
      → ((a : A) → Calm before (k a))
      → Calm before (with_db j r k)
  unfolding Idle
  with_db-Calm before (ok a, db) k c n i = c a (record n { db = db }) i
  with_db-Calm before (err e, db) k c n i = i

  announce-Calm :
      (before : Node) (share : Share) (k : N (Option ShareInfo))
      → Calm before k
      → Calm before (announce j share k)
  unfolding Idle dials
  announce-Calm before share k c n i =
      c (logged (share_changed share) n)
        (i.0, dials-append n.log (share_changed share ∷ []) ∙ (omega arith ∙ i.1))

  announce_if-Calm :
      (before : Node) (row : ℕ) (b : Bool) (k : N (Option ShareInfo))
      → Calm before k
      → Calm before (announce_if j row b k)
  announce_if-Calm before row false k c n i = c n i
  announce_if-Calm before row true k c n i =
      with_db-Calm before (read_share j row n.db) (λ share. announce j share k)
        (λ share. announce-Calm before share k c) n i

  stored-Calm :
      (before : Node) (row : ℕ) (b : Bool) (info : Option ShareInfo)
      → Calm before (stored j row b info)
  unfolding stored
  stored-Calm before row b none n i =
      announce_if-Calm before row b (λ n. (ok none, n)) (λ n i. i) n i
  stored-Calm before row b (some info) n i =
      with_db-Calm before (write_share_info j row info n.db)
        (λ _. announce_if j row true (λ n. (ok (some info), n)))
        (λ _. announce_if-Calm before row true (λ n. (ok (some info), n)) (λ n i. i)) n i

  pub fetched-Calm :
      (before : Node) (row : ℕ) (result : Result CallError (Option ShareInfo))
      → Calm before (fetched j row result)
  unfolding fetched
  fetched-Calm before row (ok info) n i =
      with_db-Calm before (write_outdated row false n.db)
        (λ previously. stored j row previously info)
        (λ previously. stored-Calm before row previously info) n i
  fetched-Calm before row (err too_old) n i =
      with_db-Calm before (write_outdated row true n.db)
        (λ changed. announce_if j row changed (λ n. (err outdated_error, n)))
        (λ changed. announce_if-Calm before row changed (λ n. (err outdated_error, n)) (λ n i. i)) n
        i
  fetched-Calm before row (err failed) n i = i
  fetched-Calm before row (err (unexpected status)) n i = i
  fetched-Calm before row (err (invite_refused why)) n i = i
  fetched-Calm before row (err (activation_refused why)) n i = i
