-- ===== src/Sdk/Store/Sweep.antt =====
-- `clean_up_incomplete_rows` of sdk/src/storage.rs, lines 551 to 554.
use wispers_access.Sdk.Store.History.{
  Op, run_all, no_rows_yet, run_all-IsValid, no_rows_yet-IsValid,
}
use wispers_access.Prelude.{
  Bool, List, [], all, any, arith, false, not, refl, subst, sym, true, ℕ, ◌&&◌, ◌==◌, ◌∙◌, ◌∷◌, ◌≡◌,
}
use wispers_access.Prelude.Searches.{delete_where_none}
use wispers_access.Sdk.Store.Db.{AppRow, Db, PortRow, ShareRow, Tables, delete_shares, with_faults}
use wispers_access.Sdk.Store.Keeps.{Keeps-total}
use wispers_access.Sdk.Store.Rows.{Json, clean_up_incomplete_rows, is_false}
use wispers_access.Sdk.Store.Valid.{IsValid, not_false}

none_also :
    (p q : ShareRow → Bool) (rows : List ShareRow)
    → all (λ r. not (p r)) rows ≡ true
    → any (λ r. q r && p r) rows ≡ false
none_also p q [] h = refl
none_also p q (r ∷ rows) h = ground (arith, none_also p q rows)

all_kept :
    {A : Type 0} (p : A → Bool) (xs : List A)
    → ((x : A) → p x ≡ false)
    → all (λ x. not (p x)) xs ≡ true
all_kept p [] h = refl
all_kept p (x ∷ xs) h = rw (h x) (all_kept p xs h)

delete_shares_none :
    (p : ShareRow → Bool) (t : Tables)
    → all (λ r. not (p r)) t.shares ≡ true
    → delete_shares p t ≡ t
delete_shares_none p t h =
    let gone : (id : ℕ) → any (λ (r : ShareRow). r.id == id && p r) t.shares ≡ false =
      λ id. none_also p (λ r. r.id == id) t.shares h in
    let a = delete_where_none p t.shares h in
    let b = delete_where_none _ t.apps (all_kept _ t.apps (λ (x : AppRow). gone x.share)) in
    let c =
      delete_where_none _ t.app_ports (all_kept _ t.app_ports (λ (x : PortRow). gone x.share)) in
    λ i. record t { shares = a i; apps = b i; app_ports = c i }

sweep_none : (d : Db) → IsValid d.tables → (clean_up_incomplete_rows d).1.tables ≡ d.tables
unfolding clean_up_incomplete_rows IsValid
sweep_none d v =
    let never : ShareRow → Bool = λ r. is_false r.complete in
    Keeps-total (λ t. t ≡ d.tables) (λ t. (tt, delete_shares never t))
      (λ t e.
        delete_shares_none never t
          (subst (λ (t : Tables). all not_false t.shares ≡ true) (sym e) v.1.1.0)
        ∙ e)
      d refl

-- Opening a store that only these methods wrote deletes nothing: no row's `complete` is FALSE, it is
-- NULL until it is TRUE.
pub clean_up_incomplete_rows-keeps :
    (j : Json) (ops : List Op) (faults : List Bool)
    → (clean_up_incomplete_rows (run_all j ops (with_faults faults no_rows_yet))).1.tables
      ≡ (run_all j ops (with_faults faults no_rows_yet)).tables
clean_up_incomplete_rows-keeps j ops faults =
    let d = with_faults faults no_rows_yet in
    sweep_none (run_all j ops d) (run_all-IsValid j ops d no_rows_yet-IsValid)
