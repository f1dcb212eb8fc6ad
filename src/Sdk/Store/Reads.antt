-- ===== src/Sdk/Store/Reads.antt =====
-- `read_share` of sdk/src/storage.rs, lines 352 to 375, and the tables.
use wispers_access.Prelude.{Option, Text, [], find, none, ok, refl, some, ℕ, ◌==◌, ◌≡◌}
use wispers_access.Sdk.Store.Db.{
  ◌>>◌, Db, ShareRow, Tables, answer, statement, update_share, with_faults, with_share,
}
use wispers_access.Sdk.Store.Info.{apps_of, read_apps}
use wispers_access.Sdk.Store.InfoLaws.{find-update_found}
use wispers_access.Sdk.Store.Keeps.{Keeps, Keeps-bind, Keeps-query, Keeps-read_column}
use wispers_access.Sdk.Store.Outcomes.{read_column-answer}
use wispers_access.Sdk.Store.Rows.{
  Json, read_ca_certificates, read_joined_at, read_names, read_outdated, read_terminal_state,
  read_transport_kind, write_terminal_state,
}
use wispers_access.Sdk.Store.Shares.{read_share, read_state, share_state}
use wispers_access.Sdk.Transports.{TerminalState}

module _ (P : Tables → Type 0) where
  Keeps-share_state : (id : ℕ) (s : Option TerminalState) → Keeps P (share_state id s)
  unfolding read_outdated
  Keeps-share_state id none =
      Keeps-bind P (read_outdated id) _ (Keeps-read_column P id (λ r. ok r.outdated)) (λ _ d h. h)
  Keeps-share_state id (some TerminalState.removed) = λ d h. h
  Keeps-share_state id (some TerminalState.revoked) = λ d h. h

  -- It reads, and does not write.
  pub Keeps-read_share : (j : Json) (id : ℕ) → Keeps P (read_share j id)
  unfolding read_share read_names read_state read_terminal_state read_transport_kind read_apps
      read_ca_certificates read_joined_at
  Keeps-read_share j id = Keeps-bind P (read_names id) _ (Keeps-read_column P id _) (λ names.
      Keeps-bind P (read_state id) _
        (Keeps-bind P (read_terminal_state id) _ (Keeps-read_column P id (λ r. ok r.terminal_state))
          (λ s. Keeps-share_state id _))
        (λ state. Keeps-bind P (read_transport_kind id) _ (Keeps-read_column P id _) (λ transport.
          Keeps-bind P (read_apps j id) _ (Keeps-query P (λ t. ok (apps_of j id t))) (λ apps.
            Keeps-bind P (read_ca_certificates j id) _ (Keeps-read_column P id _) (λ certificates.
              Keeps-bind P (read_joined_at id) _ (Keeps-read_column P id _) (λ at d h. h))))))

-- A terminal state that is written is read back.
pub write_terminal_state-read :
    (j : Json) (id : ℕ) (state : Text) (r : ShareRow) (d : Db)
    → d.faults ≡ []
    → find (λ (x : ShareRow). x.id == id) d.tables.shares ≡ some r
    → answer
        (read_terminal_state id)
        ((write_terminal_state id state >> read_share j id) d).1.tables
      ≡ ok (some state)
unfolding write_terminal_state update_share statement read_terminal_state
write_terminal_state-read j id state r d f g =
    let set : ShareRow → ShareRow = λ r. record r { terminal_state = some state } in
    let t = with_share id set d.tables in
    let same : ((write_terminal_state id state >> read_share j id) d).1.tables ≡ t =
      rw f (Keeps-read_share (λ x. x ≡ t) j id (with_faults [] t) refl) in
    rw same (
      read_column-answer id (λ r. ok r.terminal_state) t (set r)
        (find-update_found set id r d.tables.shares (λ r. refl) g))
