-- ===== src/Santa/Configurations.antt =====
-- `Configuration.get_sync_server_config` of zentral/contrib/santa/models.py: the part of a
-- configuration that an agent gets with each synchronisation.
pub mod Keys
use Prim.Native.String.{◌++◌}
use zentral.Base.{
  Bool, List, Option, String, [], false, if◌then◌else◌, ltb, none, some, true, ℕ, ◌==◌, ◌∷◌, nat_eq,
  string_eq, option_eq,
}

-- The attributes that the method reads.
pub record Configuration : Type 0 where
  pub client_mode : ℕ
  pub batch_size : ℕ
  pub full_sync_interval : ℕ
  pub allowed_path_regex : String
  pub blocked_path_regex : String
  pub enable_bundles : Bool
  pub enable_transitive_rules : Bool

pub data Setting : Type 0 where
  string : String → Setting
  number : ℕ → Setting
  boolean : Bool → Setting

abbrev pub Config : Type 0
Config = List (String × Setting)

abbrev pub monitor_mode : ℕ
monitor_mode = 1

abbrev pub lockdown_mode : ℕ
lockdown_mode = 2

-- `config.get(key)`
unfoldable pub config_get : String → Config → Option Setting
config_get key [] = none
config_get key ((k, v) ∷ config) =
    let rest = config_get key config in if k == key then some v else rest

-- `config[new] = config.pop(old)`
unfoldable pub rename_key : String → String → Config → Config
rename_key old new [] = []
rename_key old new ((k, v) ∷ config) = (if k == old then new else k, v) ∷ rename_key old new config

-- An empty pattern is replaced by one that matches nothing.
unfoldable pub non_matching : String → String → String
non_matching random regex = if regex == "" then "NON_MATCHING_PLACEHOLDER_" ++ random else regex

-- Python's `<` on tuples of numbers.
unfoldable pub tuple_lt : List ℕ → List ℕ → Bool
tuple_lt xs [] = false
tuple_lt [] (y ∷ ys) = true
tuple_lt (x ∷ xs) (y ∷ ys) =
    let rest = tuple_lt xs ys in if ltb x y then true else if x == y then rest else false

-- `DEPRECATED_ATTRIBUTES_MAPPING_1_14`
unfoldable pub with_deprecated_keys : Config → Config
unfolding rename_key
with_deprecated_keys config =
    rename_key "enable_transitive_rules" "enabled_transitive_whitelisting" (
      rename_key "blocked_path_regex" "blacklist_regex"
        (rename_key "allowed_path_regex" "whitelist_regex" config))

-- The method returns, or it raises for an unknown client mode or for a version that `int` refuses.
pub data SyncConfig : Type 0 where
  returned : Config → SyncConfig
  not_implemented_error : ℕ → SyncConfig
  value_error : SyncConfig

unfoldable pub client_mode_text : ℕ → Option String
client_mode_text mode =
    if mode == monitor_mode
    then some "MONITOR"
    else if mode == lockdown_mode
    then some "LOCKDOWN"
    else none

unfoldable pub sync_settings : Configuration → String → String → String → Config
unfolding non_matching
sync_settings c mode random_1 random_2 =
    ("client_mode", string mode)
    ∷ ("batch_size", number c.batch_size)
    ∷ ("full_sync_interval", number c.full_sync_interval)
    ∷ ("allowed_path_regex", string (non_matching random_1 c.allowed_path_regex))
    ∷ ("blocked_path_regex", string (non_matching random_2 c.blocked_path_regex))
    ∷ ("enable_bundles", boolean c.enable_bundles)
    ∷ ("enable_transitive_rules", boolean c.enable_transitive_rules)
    ∷ []

unfoldable pub translated : Option (List ℕ) → Config → SyncConfig
translated none config = value_error
translated (some version) config =
    if tuple_lt version (1 ∷ 14 ∷ [])
    then returned (with_deprecated_keys config)
    else returned config

unfoldable pub sync_config_in :
    Configuration → Option String → String → String → Option (List ℕ) → SyncConfig
sync_config_in c none random_1 random_2 version = not_implemented_error c.client_mode
sync_config_in c (some mode) random_1 random_2 version =
    translated version (sync_settings c mode random_1 random_2)

-- `version` is the tuple of the numbers in the agent's version, or `none` where `int` raises. The
-- random texts of the two patterns are arguments.
unfoldable pub get_sync_server_config :
    Configuration → String → String → Option (List ℕ) → SyncConfig
unfolding sync_config_in
get_sync_server_config c random_1 random_2 version =
    sync_config_in c (client_mode_text c.client_mode) random_1 random_2 version
