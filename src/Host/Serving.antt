-- ===== src/Host/Serving.antt =====
-- waserver/src/serving.rs, lines 186 to 211: reloading a share's config. The file's text is given;
-- an event is the hash that is sent to the guests who listen.
use wispers_access.Host.Config.Hash.{config_hash}
use wispers_access.Host.Config.Parse.{ConfigError, parse}
use wispers_access.Host.Config.Types.{Crates, ShareConfig}
use wispers_access.Host.Config.Valid.{IsConfig, parse-IsConfig}
use wispers_access.Prelude.{
  ==_iff, Bool, Bool-cases, List, Result, Text, [], err, false, if◌then◌else◌, inl, inr, ok, refl,
  true, ℕ, ◌++◌, ◌==◌, ◌∷◌, ◌≡◌, ◌≢◌,
}

pub record Serving : Type 0 where
  pub config : ShareConfig
  pub events : List ℕ

unfoldable pub swap_config : ShareConfig → Serving → Bool × Serving
unfolding config_hash
swap_config fresh s =
    if config_hash fresh == config_hash s.config
    then (false, s)
    else (true, record { config = fresh; events = s.events ++ (config_hash fresh ∷ []) })

reload_parsed : Result ConfigError ShareConfig → Serving → Result ConfigError Bool × Serving
unfolding swap_config
reload_parsed (err e) s = (err e, s)
reload_parsed (ok fresh) s = (ok (swap_config fresh s).0, (swap_config fresh s).1)

unfoldable pub reload : Crates → Text → Serving → Result ConfigError Bool × Serving
unfolding reload_parsed parse
reload crates text s = reload_parsed (parse crates text) s

-- What a reload of a file's text does to what is served.
pub data Reloaded (crates : Crates) (text : Text) (s : Serving)
    : Result ConfigError Bool × Serving → Type 0 where
  invalid_file : (e : ConfigError) → parse crates text ≡ err e → Reloaded crates text s (err e, s)
  unchanged :
      (fresh : ShareConfig)
      → parse crates text ≡ ok fresh
      → config_hash fresh ≡ config_hash s.config
      → Reloaded crates text s (ok false, s)
  replaced :
      (fresh : ShareConfig)
      → parse crates text ≡ ok fresh
      → IsConfig crates fresh
      → config_hash fresh ≢ config_hash s.config
      → Reloaded crates text s
          (ok true, record { config = fresh; events = s.events ++ (config_hash fresh ∷ []) })

swap_config-Reloaded :
    (crates : Crates) (text : Text) (fresh : ShareConfig) (s : Serving)
    → parse crates text ≡ ok fresh
    → Reloaded crates text s (ok (swap_config fresh s).0, (swap_config fresh s).1)
unfolding swap_config
swap_config-Reloaded crates text fresh s p =
    elim (Bool-cases (config_hash fresh == config_hash s.config)) [
      | inl e ↦ rw e (unchanged fresh p ((==_iff _ _).0 e))
      | inr e ↦ rw e (
          replaced fresh p (parse-IsConfig crates text fresh p)
            (λ h. absurd (cc (e, (==_iff _ _).1 h))))
    ]

reload_parsed-Reloaded :
    (crates : Crates) (text : Text) (r : Result ConfigError ShareConfig) (s : Serving)
    → parse crates text ≡ r
    → Reloaded crates text s (reload_parsed r s)
unfolding reload_parsed
reload_parsed-Reloaded crates text (err e) s p = invalid_file e p
reload_parsed-Reloaded crates text (ok fresh) s p = swap_config-Reloaded crates text fresh s p

-- A reload reports the error of the file's text, and the same config is served and no event is sent;
-- or the config that the text parses to has the hash of the served one, no change is reported, and
-- the same config is served and no event is sent; or that config, which is valid, has another
-- hash, and then it is served from now on, its hash is sent, and the change is reported.
pub reload-Reloaded :
    (crates : Crates) (text : Text) (s : Serving) → Reloaded crates text s (reload crates text s)
unfolding reload
reload-Reloaded crates text s = reload_parsed-Reloaded crates text (parse crates text) s refl
