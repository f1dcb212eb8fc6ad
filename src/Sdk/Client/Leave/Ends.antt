-- ===== src/Sdk/Client/Leave/Ends.antt =====
-- `leave` of the SDK's transports, iroh_transport.rs, lines 54 to 112, and wispers_connect_transport.rs,
-- lines 98 to 132, on a store that is well: that it ends and what becomes of the secrets.
use mathlib.Core.Option
use wispers_access.Prelude.{
  ◌∷◌, arith, Bool, arith, List, Option-cases, true, false, delete_where, Bool-cases, Option,
  Result, Text, [], any, ap, err, if◌then◌else◌, inl, inr, none, ok, refl, some, text_eq, ℕ, ◌&&◌,
  ◌∙◌, ◌≡◌,
}
use wispers_access.Sdk.Client.{Device, J, SdkError, host_node, next, on_store, stored_as}
use wispers_access.Sdk.Client.Leave.{
  at_hub, ended, logged_out, Farewell, forget_secrets, forgotten, iroh_leave, leave_over, restore,
  restored, tell_host, wispers_connect_leave,
}
use wispers_access.Sdk.Store.Db.{
  Db, Error, ShareRow, Tables, after, answer, of_row, query, read_column, reading, share_with_id,
  statement, with_faults,
}
use wispers_access.Sdk.Store.Rows.{read_iroh_endpoint_id, read_wispers_connect_backend, share_id_of}
use wispers_access.Wire.Transport.{Transport, iroh, tailscale, wispers_connect}

-- A store with these tables and no statement that will fail.
abbrev pub Quiet : Tables → Device → Type 0
Quiet t d = d.db ≡ with_faults [] t

-- The attempt to log out at the hub ends, well or not.
abbrev pub LogoutEnds : Farewell → Type 0
LogoutEnds bye = (secrets : List Text) → ¬ (bye.logout secrets ≡ none)

any-delete_where : (p : Text → Bool) (xs : List Text) → any p (delete_where p xs) ≡ false
any-delete_where p [] = refl
any-delete_where p (x ∷ xs) = ground (arith, any-delete_where p xs)

module _ (t : Tables) where
  answered : {A : Type 0} (r : Result Error A) → (after (with_faults [] t) (reading t r)).0 ≡ r
  answered (ok a) = refl
  answered (err e) = refl

  after_quiet_store :
      {A : Type 0} (r : Result Error A)
      → (after (with_faults [] t) (reading t r)).1 ≡ with_faults [] t
  after_quiet_store (ok a) = refl
  after_quiet_store (err e) = refl

  pub query_quiet_store :
      {A : Type 0} (f : Tables → Result Error A) (db : Db)
      → db ≡ with_faults [] t
      → query f db ≡ (answer (query f) t, with_faults [] t)
  unfolding query statement
  query_quiet_store f db q =
      rw q (ap (λ x. ((after (with_faults [] t) (reading t (f t))).0, x)) (after_quiet_store (f t)))

  stored_as-Quiet :
      {A : Type 0} (e : SdkError) (p : Result Error A × Db) (d : Device)
      → p.1 ≡ with_faults [] t
      → Quiet t (stored_as e p d).1
  stored_as-Quiet e (ok a, db) d q = q
  stored_as-Quiet e (err x, db) d q = q

  read-Quiet :
      {A : Type 0} (e : SdkError) (id : ℕ) (f : ShareRow → Result Error A) (d : Device)
      → Quiet t d
      → Quiet t (on_store e (read_column id f) d).1
  unfolding read_column
  read-Quiet e id f d q = stored_as-Quiet e (read_column id f d.db) d (
      ap (λ (p : Result Error _ × Db). p.1)
        (query_quiet_store (λ t. of_row (share_with_id id t) f) d.db q))

  next-Quiet :
      {A B : Type 0} (p : Result SdkError A × Device) (k : A → J B)
      → Quiet t p.1
      → ((a : A) (d : Device) → Quiet t d → Quiet t (k a d).1)
      → Quiet t (next p k).1
  next-Quiet (ok a, d) k q l = l a d q
  next-Quiet (err e, d) k q l = q

  restored-Quiet :
      (bye : Farewell) (id : ℕ) (address : Option Text) (d : Device)
      → Quiet t d
      → Quiet t (restored bye id address d).1
  unfolding restored share_id_of
  restored-Quiet bye id none d q = q
  restored-Quiet bye id (some h) d q =
      next-Quiet (on_store host_node (share_id_of id) d)
        (λ share_id d.
          if any (text_eq share_id) d.secrets && bye.binds then (ok tt, d) else (err host_node, d))
        (read-Quiet host_node id (λ r. ok r.share_id) d q)
        (λ share_id d q. elim (Bool-cases (any (text_eq share_id) d.secrets && bye.binds)) [
          | inl e ↦ rw e q
          | inr e ↦ rw e q
        ])

  tell_host-Quiet :
      (version : Text) (bye : Farewell) (id : ℕ) (d : Device)
      → Quiet t d
      → Quiet t (tell_host version bye id d).1
  unfolding tell_host restore read_iroh_endpoint_id
  tell_host-Quiet version bye id d q =
      next-Quiet (restore bye id d) _
        (next-Quiet (on_store host_node (read_iroh_endpoint_id id) d) (restored bye id)
          (read-Quiet host_node id (λ r. ok r.iroh_endpoint_id) d q) (restored-Quiet bye id))
        (λ _ d q. q)

  forgotten-Quiet :
      (bye : Farewell) (p : Result SdkError Text × Device) → Quiet t p.1 → Quiet t (forgotten bye p)
  forgotten-Quiet bye (ok s, d) q = elim (Bool-cases bye.deletes) [
    | inl e ↦ rw e q
    | inr e ↦ rw e q
  ]
  forgotten-Quiet bye (err e, d) q = q

  forget_secrets-Quiet :
      (bye : Farewell) (id : ℕ) (d : Device) → Quiet t d → Quiet t (forget_secrets bye id d)
  unfolding forget_secrets share_id_of
  forget_secrets-Quiet bye id d q =
      forgotten-Quiet bye (on_store host_node (share_id_of id) d)
        (read-Quiet host_node id (λ r. ok r.share_id) d q)

  -- The secrets of the share are gone, if they can be deleted and its transport has any.
  abbrev pub Gone : Farewell → ℕ → Transport → Device → Type 0
  Gone bye id kind d =
      (r : ShareRow)
      → share_with_id id t ≡ ok r
      → bye.deletes ≡ true
      → ¬ (kind ≡ tailscale)
      → any (text_eq r.share_id) d.secrets ≡ false

  forget_secrets-Gone :
      (bye : Farewell) (id : ℕ) (kind : Transport) (d : Device)
      → Quiet t d
      → Gone bye id kind (forget_secrets bye id d)
  unfolding forget_secrets share_id_of read_column query statement
  forget_secrets-Gone bye id kind d q r f deletes other =
      let read : share_id_of id d.db ≡ (ok r.share_id, with_faults [] t) =
        query_quiet_store (λ x. of_row (share_with_id id x) (λ r. ok r.share_id)) d.db q
        ∙ ap (λ (a : Result Error Text). (a, with_faults [] t))
            (answered (of_row (share_with_id id t) (λ r. ok r.share_id))
              ∙ ap (λ (m : Result Error ShareRow). of_row m (λ r. ok r.share_id)) f) in
      ap
        (λ (p : Result Error Text × Db).
          any (text_eq r.share_id) (forgotten bye (stored_as host_node p d)).secrets)
        read
      ∙ rw deletes (any-delete_where (text_eq r.share_id) d.secrets)

  at_hub-Quiet :
      (bye : Farewell) (p : Result SdkError Text × Device)
      → LogoutEnds bye
      → Quiet t p.1
      → (d' : Device) × (at_hub bye p ≡ some d') × Quiet t d'
  at_hub-Quiet bye (ok share_id, d) l q = elim (Option-cases (bye.logout d.secrets)) [
    | inl e ↦ absurd (l d.secrets e)
    | inr (r, e) ↦ (record d { secrets = r.1 }, ap (λ o. logged_out o d) e, q)
  ]
  at_hub-Quiet bye (err e, d) l q = (d, refl, q)

  -- The attempt to take leave of the host or the hub ends.
  pub leave_over-Quiet :
      (version : Text) (bye : Farewell) (id : ℕ) (kind : Transport) (d : Device)
      → (kind ≡ wispers_connect → LogoutEnds bye)
      → Quiet t d
      → (d' : Device) × (leave_over version bye id kind d ≡ some (ok tt, d'))
        × Quiet t d'
        × Gone bye id kind d'
  unfolding leave_over iroh_leave wispers_connect_leave read_wispers_connect_backend share_id_of
  leave_over-Quiet version bye id iroh d l q = (
    iroh_leave version bye id d,
    refl,
    forget_secrets-Quiet bye id _ (tell_host-Quiet version bye id d q),
    forget_secrets-Gone bye id iroh _ (tell_host-Quiet version bye id d q),
  )
  leave_over-Quiet version bye id wispers_connect d l q =
      let reads =
        next (on_store host_node (read_wispers_connect_backend id) d)
          (λ _. on_store host_node (share_id_of id)) in
      let (d1, e, w) = at_hub-Quiet bye reads (l refl) (
        next-Quiet (on_store host_node (read_wispers_connect_backend id) d)
          (λ _. on_store host_node (share_id_of id))
          (read-Quiet host_node id (λ r. ok r.wispers_connect_backend) d q)
          (λ _ d q. read-Quiet host_node id (λ r. ok r.share_id) d q)) in
      (
        forget_secrets bye id d1,
        ap (λ o. Option.map ended (Option.map (forget_secrets bye id) o)) e,
        forget_secrets-Quiet bye id d1 w,
        forget_secrets-Gone bye id wispers_connect d1 w,
      )
  leave_over-Quiet version bye id tailscale d l q =
      (d, refl, q, λ r f deletes other. absurd (other refl))
