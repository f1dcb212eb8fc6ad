-- ===== src/Sdk/GuestNode/Unchanged.antt =====
-- `refresh` of sdk/src/guest_node.rs, lines 148 to 180, against the host's API, waserver/src/guest_api.rs,
-- lines 47 to 236, for a share that did not change.
use wispers_access.Host.Config.Hash.{config_hash, config_hash-bound}
use wispers_access.Host.GuestApi.{
  share_info, Formats, Peer, StreamContext, client_version, is_authorized,
}
use wispers_access.Host.Store.Db.{External, Db as HostDb}
use wispers_access.Prelude.{
  ==_refl, Bool, Option, Result, Text, [], any, ap, false, if◌then◌else◌, none, ok, refl, some,
  true, ℕ, ◌++◌, ◌∙◌, ◌∷◌, ◌≡◌,
}
use wispers_access.Prelude.Searches.{update_where_none}
use wispers_access.Sdk.GuestCalls.{client_user_agent, fetch_info}
use wispers_access.Sdk.GuestCalls.WithHost.{fetch_info-route, host}
use wispers_access.Sdk.GuestNode.{
  Far, Node, after_open, dial_answer, dialed, fetched, open_stream_ungated, open_unless, refresh,
  stored, with_db,
}
use wispers_access.Sdk.Store.Db.{Db, Error, answer, statement, with_faults}
use wispers_access.Sdk.Store.Outcomes.{read_column-run}
use wispers_access.Sdk.Store.Rows.{Json, differs, read_share_config_hash, write_outdated}
use wispers_access.Sdk.Transports.{ConnectionCheck, TransportError}

write_outdated_none :
    (id : ℕ) (d : Db)
    → d.faults ≡ []
    → any (differs id false) d.tables.shares ≡ false
    → write_outdated id false d ≡ (ok false, d)
unfolding write_outdated statement
write_outdated_none id d e h =
    let none_set =
      update_where_none (differs id false) (λ r. record r { outdated = false }) d.tables.shares h in
    let same : d ≡ with_faults [] d.tables = λ i. record { tables = d.tables; faults = e i } in
    rw same (rw (h, none_set) refl)

module _ (j : Json) (x : External) (formats : Formats) (ctx : StreamContext) (peer : Peer) (now : ℕ)
    (d : HostDb) (version : Text) where
  -- The guest's dial reaches the host.
  abbrev pub reaching : Result TransportError ConnectionCheck → ℕ → Far
  reaching check clock = record {
    dial = ok tt;
    check = check;
    exchange = host x formats ctx peer now d version;
    now = clock;
  }

  -- A node that is not turned away, whose share is not marked outdated and whose stored hash is that
  -- of the host's config, learns that nothing changed: it dials once, tells nobody and leaves its
  -- store as it was, when the host knows the guest and serves its version and no statement fails.
  pub refresh-unchanged :
      (check : Result TransportError ConnectionCheck) (clock : ℕ) (n : Node)
      → formats.below_minimum (client_version (some (client_user_agent version))) ≡ false
      → is_authorized peer ≡ true
      → n.dead ≡ none
      → n.db.faults ≡ []
      → answer (read_share_config_hash n.row) n.db.tables ≡ ok (some (config_hash ctx.config))
      → any (differs n.row false) n.db.tables.shares ≡ false
      → refresh j version (reaching check clock) n
        ≡ (ok none, record n { last_used = some clock; log = n.log ++ (dialed ∷ []) })
  unfolding refresh open_stream_ungated open_unless dial_answer after_open read_share_config_hash
      fetched stored
  refresh-unchanged check clock n v a dead e h o =
      let far = reaching check clock in
      let n1 : Node = record n { last_used = some clock; log = n.log ++ (dialed ∷ []) } in
      let hash = config_hash ctx.config in
      let opened = ap (λ s. open_unless j far s n) dead in
      let read = read_column-run n.row _ n.db (some hash) e h in
      let same =
        fetch_info-route x formats ctx peer now d version (some hash) v a
          (config_hash-bound ctx.config) in
      let unchanged : fetch_info version far.exchange (some hash) ≡ ok none =
        same
        ∙ ap (λ b. ok (if b then none else some (share_info ctx.config ctx.transport)))
            (==_refl hash) in
      ap (λ (p : Result TransportError (Unit {0}) × Node). after_open j version far p.0 p.1) opened
      ∙ (ap
            (λ (p : Result Error (Option ℕ) × Db).
              with_db j p (λ known. fetched j n.row (fetch_info version far.exchange known)) n1)
            read
          ∙ (ap (λ r. fetched j n.row r n1) unchanged
              ∙ ap
                  (λ (p : Result Error Bool × Db).
                    with_db j p (λ previously. stored j n.row previously none) n1)
                  (write_outdated_none n.row n.db e o)))
