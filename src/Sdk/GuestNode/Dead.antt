-- ===== src/Sdk/GuestNode/Dead.antt =====
-- A node whose host turned it away for good, sdk/src/guest_node.rs, lines 185 to 234.
use wispers_access.Prelude.{
  Option-cases, Result, [], ap, arith, err, find, inl, inr, is_some, none, ok, refl, some, suc, sym,
  true, ℕ, ◌+◌, ◌==◌, ◌∙◌, ◌∷◌, ◌≡◌,
}
use wispers_access.Sdk.GuestNode.{
  Far, Node, checked, dial_answer, dialed, fetched, logged, open_stream_ungated, open_unless,
  record_terminal_error,
}
use wispers_access.Sdk.GuestNode.Shared.{
  Shared, Step, Steps, check_answer, check_begins, check_ends, dial_ends, dials_out, enter, enters,
  fetch_ends, here, store_changes, ◌▸◌,
}
use wispers_access.Sdk.Store.Db.{Db, ShareRow, answer}
use wispers_access.Sdk.Store.Reads.{write_terminal_state-read}
use wispers_access.Sdk.Store.Rows.{Json, read_terminal_state}
use wispers_access.Sdk.Transports.{
  ConnectionCheck, TerminalState, TransportError, terminal, transient,
}
use wispers_access.Sdk.Transports
use wispers_access.Sdk.GuestNode.Dials.{
  Idle, announced-db, announced-dead, check_answer-Idle, dial_answer-Idle, dials, dials-append,
  fetched-Calm, record_terminal_error-Idle,
}

module _ (j : Json) where
  -- The node is still turned away, and a call that asked the transport had passed the test before.
  Settles : Shared → Shared → Type 0
  Settles u v =
      (is_some v.node.dead ≡ true) × (dials v.node.log + v.past ≡ dials u.node.log + u.past)

  settled_step :
      (u : Shared) (n : Node) (dialing checking : ℕ)
      → Idle u.node n
      → Settles u (record { node = n; past = u.past; dialing = dialing; checking = checking })
  unfolding Idle Settles
  settled_step u n dialing checking i = (i.0, ap (λ m. m + u.past) i.1)

  Step-Settles : (u v : Shared) → Step j u v → is_some u.node.dead ≡ true → Settles u v
  unfolding Settles enter Idle dials
  Step-Settles u v (enters s) h = rw h (h, refl)
  Step-Settles u v (dials_out s n e) h =
      (h, omega (arith, e, dials-append s.node.log (dialed ∷ [])))
  Step-Settles u v (dial_ends s n far e) h =
      settled_step s ((dial_answer j far far.dial s.node).1) n s.checking
        (dial_answer-Idle j far.dial far s.node h)
  Step-Settles u v (check_begins s) h = (h, omega (arith, dials-append s.node.log (checked ∷ [])))
  Step-Settles u v (check_ends s n far e) h =
      settled_step s (check_answer j far.check s.node) s.dialing n
        (check_answer-Idle j far.check s.node h)
  Step-Settles u v (fetch_ends s result) h =
      settled_step s ((fetched j s.node.row result s.node).1) s.dialing s.checking
        (fetched-Calm j s.node s.node.row result s.node (h, refl))
  Step-Settles u v (store_changes s db) h = (h, refl)

  Steps-Settles : (u v : Shared) → Steps j u v → is_some u.node.dead ≡ true → Settles u v
  unfolding Settles
  Steps-Settles u v (here s) h = (h, refl)
  Steps-Settles u v (◌▸◌ {v = m} step rest) h =
      let a = Step-Settles u m step h in let b = Steps-Settles m v rest a.0 in (b.0, b.1 ∙ a.1)

  -- Once a node's host turned it away for good, it asks the transport for a stream at most once for
  -- each call that had passed the test of `dead` before, and never for another call, however its
  -- calls overlap and whatever they meet; and it stays turned away.
  pub Steps-dead :
      (u v : Shared)
      → Steps j u v
      → is_some u.node.dead ≡ true
      → (is_some v.node.dead ≡ true) × (dials v.node.log + v.past ≡ dials u.node.log + u.past)
  unfolding Settles
  Steps-dead u v steps h = Steps-Settles u v steps h

  enter-live : (s : Shared) → s.node.dead ≡ none → enter s ≡ record s { past = suc s.past }
  unfolding enter
  enter-live s e = rw e refl

  -- A call that no other overlaps is a run of the steps.
  pub open_stream_ungated-Steps :
      (far : Far) (s : Shared)
      → (v : Shared) × Steps j s v × (v.node ≡ (open_stream_ungated j far s.node).1)
  unfolding open_stream_ungated open_unless enter
  open_stream_ungated-Steps far s = elim (Option-cases s.node.dead) [
    | inl e ↦
        let entered = enter s in
        let asked : Shared = record entered {
          node = logged dialed entered.node;
          past = s.past;
          dialing = suc entered.dialing;
        } in
        (
          record asked {
            node = (dial_answer j far far.dial asked.node).1;
            dialing = entered.dialing;
          },
          enters s
              ▸ (dials_out entered s.past (rw e refl)
                  ▸ (dial_ends asked entered.dialing far refl ▸ here _)),
          ap (λ (n : Node). (dial_answer j far far.dial (logged dialed n)).1)
                (ap (λ (x : Shared). x.node) (enter-live s e))
              ∙ ap (λ (p : Result TransportError (Unit {0}) × Node). p.1)
                  (sym (ap (λ o. open_unless j far o s.node) e)),
        )
    | inr (state, e) ↦ (
      s,
      here s,
      ap (λ (p : Result TransportError (Unit {0}) × Node). p.1)
          (sym (ap (λ o. open_unless j far o s.node) e)),
    )
  ]

  -- What a dial that ends in a terminal error leaves: the node is turned away for good and dialed
  -- once, and when no statement of the store fails and the share's row is there, the stored state
  -- of the share is the reason.
  pub open-terminal :
      (far : Far) (n : Node) (s : TerminalState) (r : ShareRow)
      → n.dead ≡ none
      → far.dial ≡ err (terminal s)
      → n.db.faults ≡ []
      → find (λ (x : ShareRow). x.id == n.row) n.db.tables.shares ≡ some r
      → let n' = (open_stream_ungated j far n).1 in
        (n'.dead ≡ some s)
        × ((dials n'.log ≡ suc (dials n.log))
            × (answer (read_terminal_state n.row) n'.db.tables ≡ ok (some (Transports.as_str s))))
  unfolding open_stream_ungated open_unless dial_answer record_terminal_error Idle dials
  open-terminal far n s r d e f g =
      let n1 = logged dialed n in
      let q : open_stream_ungated j far n ≡ (err (terminal s), record_terminal_error j s n1) =
        ap (λ o. open_unless j far o n) d ∙ ap (λ a. dial_answer j far a n1) e in
      let i = record_terminal_error-Idle j s n1 in
      rw q (
        announced-dead j _ (record n1 { dead = some s }),
        (
          i.1 ∙ (dials-append n.log (dialed ∷ []) ∙ omega arith),
          ap (λ (d : Db). answer (read_terminal_state n.row) d.tables)
                (announced-db j _ (record n1 { dead = some s }))
              ∙ write_terminal_state-read j n.row (Transports.as_str s) r n.db f g,
        ),
      )
