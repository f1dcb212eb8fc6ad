-- ===== src/Sdk/Store/Valid.antt =====
-- The constraints of the schema of sdk/src/storage.rs, lines 502 to 530, as an invariant of the tables.
use wispers_access.Prelude.{
  Bool, Option, Text, all, false, leb, none, not, some, text_eq, true, ℕ, ◌&&◌, ◌==◌, ◌||◌, ◌∙◌,
  ◌≡◌,
}
use wispers_access.Prelude.Distinct.{Distinct, Distinct-update_where}
use wispers_access.Prelude.Searches.{all-update_where_to, all_implies, any-update_where_key}
use wispers_access.Sdk.Store.Db.{AppRow, PortRow, ShareRow, Tables, with_shares}
use wispers_access.Sdk.Store.Info.{same_app}
use wispers_access.Sdk.Store.Rows.{has_share, is_false}

abbrev pub same_hostname : Option Text → Option Text → Bool
same_hostname none o = false
same_hostname (some s) none = false
same_hostname (some s) (some t) = text_eq s t

-- PRIMARY KEY and the two UNIQUE columns.
abbrev pub same_share : ShareRow → ShareRow → Bool
same_share a b =
    a.id == b.id || (text_eq a.share_id b.share_id || same_hostname a.hostname b.hostname)

abbrev pub same_port : PortRow → PortRow → Bool
same_port a b = a.share == b.share && text_eq a.app_id b.app_id

abbrev pub within : ℕ → ShareRow → Bool
within last r = leb r.id last

abbrev pub not_false : ShareRow → Bool
not_false r = not (is_false r.complete)

-- No two rows of a table share a key, every id was counted, no `complete` is FALSE, and every app
-- and port refers to a share that is there.
unfoldable pub IsValid : Tables → Type 0
unfolding text_eq
IsValid t =
    Distinct same_share t.shares
    × ((all (within t.last_id) t.shares ≡ true)
        × ((all not_false t.shares ≡ true)
            × ((Distinct same_app t.apps
                  × (all (λ (a : AppRow). has_share a.share t) t.apps ≡ true))
                × (Distinct same_port t.app_ports
                    × (all (λ (p : PortRow). has_share p.share t) t.app_ports ≡ true)))))

-- An update of rows that leaves the ids alone.
pub with_shares-IsValid_of :
    (p : ShareRow → Bool) (set : ShareRow → ShareRow) (t : Tables)
    → Distinct same_share (with_shares p set t).shares
    → ((r : ShareRow) → (set r).id ≡ r.id)
    → ((r : ShareRow) → not_false r ≡ true → not_false (set r) ≡ true)
    → IsValid t
    → IsValid (with_shares p set t)
unfolding IsValid
with_shares-IsValid_of p set t distinct same_id not_f v =
    let kept : (i : ℕ) → has_share i (with_shares p set t) ≡ has_share i t = λ i.
      any-update_where_key (λ (r : ShareRow). r.id == i) p set t.shares (λ r. rw (same_id r)) in
    (
      distinct,
      (
        all-update_where_to (within t.last_id) p set t.shares (λ r h. rw (same_id r) h) v.1.0,
        (
          all-update_where_to not_false p set t.shares not_f v.1.1.0,
          (
            (v.1.1.1.0.0, all_implies _ _ t.apps (λ a h. kept a.share ∙ h) v.1.1.1.0.1),
            (v.1.1.1.1.0, all_implies _ _ t.app_ports (λ a h. kept a.share ∙ h) v.1.1.1.1.1),
          ),
        ),
      ),
    )

-- An update of columns that no constraint is on.
pub with_shares-IsValid :
    (p : ShareRow → Bool) (set : ShareRow → ShareRow) (t : Tables)
    → ((r : ShareRow) → (set r).id ≡ r.id)
    → ((r : ShareRow) → (set r).share_id ≡ r.share_id)
    → ((r : ShareRow) → (set r).hostname ≡ r.hostname)
    → ((r : ShareRow) → not_false r ≡ true → not_false (set r) ≡ true)
    → IsValid t
    → IsValid (with_shares p set t)
unfolding IsValid
with_shares-IsValid p set t same_id same_sid same_host not_f v =
    with_shares-IsValid_of p set t
      (Distinct-update_where same_share set (λ a b. rw (same_id a, same_sid a, same_host a))
        (λ a b. rw (same_id b, same_sid b, same_host b)) p t.shares v.0)
      same_id not_f v
