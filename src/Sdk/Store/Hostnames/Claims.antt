-- ===== src/Sdk/Store/Hostnames/Claims.antt =====
-- `write_deduped_hostname`, sdk/src/storage.rs, lines 138 to 168: its end and its result.
use wispers_access.Prelude.{
  Bool-cases, Option, Result, Text, any, ap, arith, inl, inr, length, none, ok, ok-injective, refl,
  some, subst, suc, sym, ℕ, ◌&&◌, ◌∙◌, ◌≡◌, ◌⊎◌,
}
use wispers_access.Sdk.Store.Db.{
  ◌>>=◌, Db, Error, ShareRow, Tables, next_fault, pure, read_column, share_with_id,
}
use wispers_access.Sdk.Store.Hostnames.{
  Attempt, claimed, out_of_fuel, settle, taken_by, too_long, try_candidates, write_deduped_hostname,
  write_deduped_hostname_within, write_hostname,
}
use wispers_access.Sdk.Store.Hostnames.Ends.{all_taken-length}
use wispers_access.Sdk.Store.Hostnames.Loop.{
  Claims, FirstFree, try_candidates-all_taken, try_candidates-claimed, try_candidates-too_long,
  write_hostname-fault, write_hostname-free, write_hostname-taken,
}
use wispers_access.Sdk.Store.Outcomes.{bind-ok, pair_eq, read_column-ok}
use wispers_access.Sdk.Store.Rows.{has_share, share_id_of}

settle-none :
    (id : ℕ) (share_id : Text) (a : Attempt) (d d' : Db)
    → settle id share_id a d ≡ (ok none, d')
    → a ≡ out_of_fuel
settle-none id share_id (claimed label) d d' h = absurd (cc h)
settle-none id share_id too_long d d' h =
    let (u, (d1, (e, k))) = bind-ok (write_hostname id share_id) (λ _. pure (some share_id)) d h in
    absurd (cc k)
settle-none id share_id out_of_fuel d d' h = refl

-- The loop ends within one more turn than there are rows: the model's fuel never runs out.
pub write_deduped_hostname-ends :
    (id : ℕ) (hostname : Text) (d : Db) → ¬ ((write_deduped_hostname id hostname d).0 ≡ ok none)
unfolding write_deduped_hostname write_deduped_hostname_within share_id_of read_column
write_deduped_hostname-ends id hostname d h =
    let fuel = suc (length d.tables.shares) in
    let (share_id, (d1, (e1, k1))) =
      bind-ok (share_id_of id) (λ s. try_candidates fuel id hostname 1 >>= settle id s) d
        (pair_eq (write_deduped_hostname id hostname d) h) in
    let (a, (d2, (e2, k2))) =
      bind-ok (try_candidates fuel id hostname 1) (settle id share_id) d1 k1 in
    let same = (read_column-ok id (λ r. ok r.share_id) d d1 share_id e1).0 in
    let out = settle-none id share_id a d2 _ k2 in
    let taken =
      try_candidates-all_taken id hostname fuel 1 d1
        (ap (λ (p : Result Error Attempt × Db). p.0) e2 ∙ ap ok out) in
    let bound = all_taken-length id hostname fuel 1 d1.tables.shares taken in
    ground (arith, bound, ap (λ (t : Tables). length t.shares) same)

write_hostname-ok :
    (id : ℕ) (label : Text) (d d' : Db)
    → write_hostname id label d ≡ (ok tt, d')
    → Claims id label label d.tables d'.tables
write_hostname-ok id label d d' h = elim (Bool-cases (next_fault d.faults)) [
  | inl f ↦ absurd (cc (sym (write_hostname-fault id label d f) ∙ h))
  | inr f ↦ elim (Bool-cases (has_share id d.tables && any (taken_by id label) d.tables.shares)) [
    | inl t ↦ absurd (cc (sym (write_hostname-taken id label d f t) ∙ h))
    | inr t ↦ (
      ap (λ (p : Result Error (Unit {0}) × Db). p.1.tables)
          (sym h ∙ write_hostname-free id label d f t),
      t,
    )
  ]
]

-- Where a label comes from: the first candidate that is free, or the id of the share.
unfoldable pub ComesFrom : ℕ → Text → Text → Tables → Type 0
ComesFrom id hostname label before =
    FirstFree id hostname 1 label before
    ⊎ ((r : ShareRow) × (share_with_id id before ≡ ok r) × (label ≡ r.share_id))

settle-some :
    (id : ℕ) (hostname share_id label : Text) (fuel : ℕ) (a : Attempt) (d d1 d' : Db) (r : ShareRow)
    → share_with_id id d.tables ≡ ok r
    → r.share_id ≡ share_id
    → try_candidates fuel id hostname 1 d ≡ (ok a, d1)
    → settle id share_id a d1 ≡ (ok (some label), d')
    → Claims id hostname label d.tables d'.tables × ComesFrom id hostname label d.tables
unfolding ComesFrom
settle-some id hostname share_id label fuel (claimed l) d d1 d' r f s e h =
    let w = try_candidates-claimed id hostname fuel 1 d d1 l e in
    let l_eq : l ≡ label = cc h in
    let t_eq : d'.tables ≡ d1.tables =
      sym (ap (λ (p : Result Error (Option Text) × Db). p.1.tables) h) in
    subst (λ (x : Text). Claims id hostname x d.tables d'.tables × ComesFrom id hostname x d.tables)
      l_eq ((t_eq ∙ w.0.0, w.0.1), inl w.1)
settle-some id hostname share_id label fuel too_long d d1 d' r f s e h =
    let (u, (d2, (e2, k2))) =
      bind-ok (write_hostname id share_id) (λ _. pure (some share_id)) d1 h in
    let w = write_hostname-ok id share_id d1 d2 e2 in
    let same = try_candidates-too_long id hostname fuel 1 d d1 e in
    let l_eq : share_id ≡ label = cc k2 in
    let t_eq : d'.tables ≡ d2.tables =
      sym (ap (λ (p : Result Error (Option Text) × Db). p.1.tables) k2) in
    (
      subst (λ (x : Text). Claims id hostname x d.tables d'.tables) l_eq
          (subst (λ (t : Tables). Claims id hostname share_id t d'.tables) same (t_eq ∙ w.0, w.1)),
      inr (r, f, sym (s ∙ l_eq)),
    )
settle-some id hostname share_id label fuel out_of_fuel d d1 d' r f s e h = absurd (cc h)

-- A label that the method returns is written to the share's row and to no other, no other row
-- has it, and it is the share's id or the first of `hostname`, `hostname-2`, … that no other row has,
-- which has at most 63 bytes.
pub write_deduped_hostname-Claims :
    (id : ℕ) (hostname label : Text) (d d' : Db)
    → write_deduped_hostname id hostname d ≡ (ok (some label), d')
    → Claims id hostname label d.tables d'.tables × ComesFrom id hostname label d.tables
unfolding write_deduped_hostname write_deduped_hostname_within share_id_of
write_deduped_hostname-Claims id hostname label d d' h =
    let fuel = suc (length d.tables.shares) in
    let (share_id, (d1, (e1, k1))) =
      bind-ok (share_id_of id) (λ s. try_candidates fuel id hostname 1 >>= settle id s) d h in
    let (a, (d2, (e2, k2))) =
      bind-ok (try_candidates fuel id hostname 1) (settle id share_id) d1 k1 in
    let (same, (r, (f, s))) = read_column-ok id (λ r. ok r.share_id) d d1 share_id e1 in
    let f1 : share_with_id id d1.tables ≡ ok r = ap (share_with_id id) same ∙ f in
    let w = settle-some id hostname share_id label fuel a d1 d2 d' r f1 (ok-injective s) e2 k2 in
    subst (λ (t : Tables). Claims id hostname label t d'.tables × ComesFrom id hostname label t)
      same w
