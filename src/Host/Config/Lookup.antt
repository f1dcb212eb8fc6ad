-- ===== src/Host/Config/Lookup.antt =====
-- waserver/src/config.rs, lines 152 to 167: looking up what a parsed config shares.

-- The app that is found under its id.
use wispers_access.Host.Config.Parse.{parse}
use wispers_access.Host.Config.Types.{AppConfig, Crates, ShareConfig, find_app, has_app_id}
use wispers_access.Host.Config.Valid.{parse-IsConfig, same_id}
use wispers_access.Prelude.{
  All, List, Text, [], any, arith, false, find, ok, some, text_eq_refl, ◌∷◌, ◌≡◌,
}
use wispers_access.Prelude.Distinct.{Distinct}

pub Found : List AppConfig → AppConfig → Type 0
Found apps app = find (has_app_id app.id) apps ≡ some app

Found-later :
    (first : AppConfig) (apps some_apps : List AppConfig)
    → any (same_id first) some_apps ≡ false
    → All (Found apps) some_apps
    → All (Found (first ∷ apps)) some_apps
unfolding Found
Found-later first apps [] d h = tt
Found-later first apps (app ∷ rest) d h =
    (ground (arith, d, h.0), Found-later first apps rest (ground (arith, d)) h.1)

All-Found : (apps : List AppConfig) → Distinct same_id apps → All (Found apps) apps
unfolding Found has_app_id
All-Found [] d = tt
All-Found (app ∷ apps) d =
    (rw (text_eq_refl app.id), Found-later app apps apps d.0 (All-Found apps d.1))

-- Under the id of each app of a parsed config, `find_app` finds that app.
pub parse-find_app :
    (crates : Crates) (text : Text) (config : ShareConfig)
    → parse crates text ≡ ok config
    → All (λ (app : AppConfig). find_app config app.id ≡ some app) config.apps
unfolding find_app Found
parse-find_app crates text config h =
    All-Found config.apps (parse-IsConfig crates text config h).apps_distinct
