-- ===== src/Sdk/Store/Hostnames/Loop.antt =====
-- `write_deduped_hostname`, sdk/src/storage.rs, lines 138 to 168: how its loop ends.
use wispers_access.Prelude.{
  Bool, Bool-cases, List, Result, Text, any, ap, arith, byte_len, err, false, inl, inr, leb, ltb,
  ok, refl, some, subst, suc, sym, true, update_where, zero, ℕ, ◌&&◌, ◌+◌, ◌==◌, ◌∙◌, ◌≡◌,
}
use wispers_access.Sdk.Store.Db.{
  Db, Error, ShareRow, Tables, constraint, failure, later_faults, next_fault, statement,
  with_faults,
}
use wispers_access.Sdk.Store.Hostnames.{
  Attempt, candidate, claimed, out_of_fuel, set_hostname, taken_by, too_long, try_candidates,
  write_hostname,
}
use wispers_access.Sdk.Store.Hostnames.Ends.{all_taken}
use wispers_access.Sdk.Store.Rows.{has_share}

abbrev after_one : Db → Db
after_one d = record d { faults = later_faults d.faults }

pub write_hostname-taken :
    (id : ℕ) (label : Text) (d : Db)
    → next_fault d.faults ≡ false
    → (has_share id d.tables && any (taken_by id label) d.tables.shares) ≡ true
    → write_hostname id label d ≡ (err constraint, after_one d)
unfolding write_hostname statement set_hostname
write_hostname-taken id label d f h = rw (f, h)

abbrev pub named : ℕ → Text → Tables → Tables
named id label t = record t {
  shares =
      update_where (λ (r : ShareRow). r.id == id) (λ r. record r { hostname = some label })
        t.shares;
}

pub write_hostname-free :
    (id : ℕ) (label : Text) (d : Db)
    → next_fault d.faults ≡ false
    → (has_share id d.tables && any (taken_by id label) d.tables.shares) ≡ false
    → write_hostname id label d
      ≡ (ok tt, with_faults (later_faults d.faults) (named id label d.tables))
unfolding write_hostname statement set_hostname
write_hostname-free id label d f h = rw (f, h)

pub write_hostname-fault :
    (id : ℕ) (label : Text) (d : Db)
    → next_fault d.faults ≡ true
    → write_hostname id label d ≡ (err failure, after_one d)
unfolding write_hostname statement
write_hostname-fault id label d f = rw f

module _ (id : ℕ) (hostname : Text) where
  pub try_candidates-all_taken :
      (fuel n : ℕ) (d : Db)
      → (try_candidates fuel id hostname n d).0 ≡ ok out_of_fuel
      → all_taken id hostname fuel n d.tables.shares ≡ true
  unfolding try_candidates all_taken
  try_candidates-all_taken zero n d h = refl
  try_candidates-all_taken (suc fuel) n d h =
      let label = candidate hostname n in
      elim (Bool-cases (ltb 63 (byte_len label))) [
        | inl e ↦ absurd (cc (rw (try_candidates, e) at h))
        | inr e ↦ elim (Bool-cases (next_fault d.faults)) [
          | inl f ↦ absurd (cc (rw (try_candidates, e, write_hostname-fault id label d f) at h))
          | inr f ↦
              elim (Bool-cases (has_share id d.tables && any (taken_by id label) d.tables.shares)) [
                | inl t ↦ ground (
                  arith,
                  t,
                  try_candidates-all_taken fuel (suc n) (after_one d)
                      (rw (try_candidates, e, write_hostname-taken id label d f t) at h),
                )
                | inr t ↦
                    absurd (cc (rw (try_candidates, e, write_hostname-free id label d f t) at h))
              ]
        ]
      ]

  -- The write of a label that no other row has.
  abbrev pub Claims : Text → Tables → Tables → Type 0
  Claims label before tables =
      (tables ≡ named id label before)
      × ((has_share id before && any (taken_by id label) before.shares) ≡ false)

  -- The first candidate that is free, from the nth on.
  abbrev pub FirstFree : ℕ → Text → Tables → Type 0
  FirstFree n label before =
      (k : ℕ) × ((all_taken id hostname k n before.shares ≡ true)
        × ((label ≡ candidate hostname (n + k)) × (leb (byte_len label) 63 ≡ true)))

  FirstFree-suc :
      (n : ℕ) (label : Text) (t : Tables)
      → any (taken_by id (candidate hostname n)) t.shares ≡ true
      → FirstFree (suc n) label t
      → FirstFree n label t
  unfolding all_taken
  FirstFree-suc n label t h f = (
    suc f.0,
    (ground (arith, h, f.1.0), (f.1.1.0 ∙ ap (candidate hostname) (omega arith), f.1.1.1)),
  )

  Claims-free :
      (n : ℕ) (label : Text) (faults : List Bool) (before : Tables) (d' : Db)
      → Path
          (Result Error Attempt × Db)
          (
            ok (claimed (candidate hostname n)),
            with_faults faults (named id (candidate hostname n) before),
          )
          (ok (claimed label), d')
      → (has_share id before && any (taken_by id (candidate hostname n)) before.shares) ≡ false
      → ltb 63 (byte_len (candidate hostname n)) ≡ false
      → Claims label before d'.tables × FirstFree n label before
  unfolding all_taken
  Claims-free n label faults before d' h t b =
      let l : candidate hostname n ≡ label = cc h in
      let e : d'.tables ≡ named id (candidate hostname n) before =
        sym (ap (λ (p : Result Error Attempt × Db). p.1.tables) h) in
      subst (λ (s : Text). Claims s before d'.tables × FirstFree n s before) l
        ((e, t), (0, (refl, (ap (candidate hostname) (omega arith), ground arith))))

  pub try_candidates-claimed :
      (fuel n : ℕ) (d d' : Db) (label : Text)
      → try_candidates fuel id hostname n d ≡ (ok (claimed label), d')
      → Claims label d.tables d'.tables × FirstFree n label d.tables
  unfolding try_candidates all_taken
  try_candidates-claimed zero n d d' label h = absurd (cc h)
  try_candidates-claimed (suc fuel) n d d' label h =
      let c = candidate hostname n in
      elim (Bool-cases (ltb 63 (byte_len c))) [
        | inl e ↦ absurd (cc (rw (try_candidates, e) at h))
        | inr e ↦ elim (Bool-cases (next_fault d.faults)) [
          | inl f ↦ absurd (cc (rw (try_candidates, e, write_hostname-fault id c d f) at h))
          | inr f ↦
              elim (Bool-cases (has_share id d.tables && any (taken_by id c) d.tables.shares)) [
                | inl t ↦
                    let r =
                      try_candidates-claimed fuel (suc n) (after_one d) d' label
                        (rw (try_candidates, e, write_hostname-taken id c d f t) at h) in
                    (r.0, FirstFree-suc n label d.tables (ground (arith, t)) r.1)
                | inr t ↦
                    Claims-free n label (later_faults d.faults) d.tables d'
                      (rw (try_candidates, e, write_hostname-free id c d f t) at h) t e
              ]
        ]
      ]

  pub try_candidates-too_long :
      (fuel n : ℕ) (d d' : Db)
      → try_candidates fuel id hostname n d ≡ (ok too_long, d')
      → d'.tables ≡ d.tables
  unfolding try_candidates
  try_candidates-too_long zero n d d' h = absurd (cc h)
  try_candidates-too_long (suc fuel) n d d' h =
      let c = candidate hostname n in
      elim (Bool-cases (ltb 63 (byte_len c))) [
        | inl e ↦
            let h' = rw (try_candidates, e) at h in
            sym (ap (λ (p : Result Error Attempt × Db). p.1.tables) h')
        | inr e ↦ elim (Bool-cases (next_fault d.faults)) [
          | inl f ↦ absurd (cc (rw (try_candidates, e, write_hostname-fault id c d f) at h))
          | inr f ↦
              elim (Bool-cases (has_share id d.tables && any (taken_by id c) d.tables.shares)) [
                | inl t ↦
                    try_candidates-too_long fuel (suc n) (after_one d) d'
                      (rw (try_candidates, e, write_hostname-taken id c d f t) at h)
                | inr t ↦ absurd (cc (rw (try_candidates, e, write_hostname-free id c d f t) at h))
              ]
        ]
      ]
