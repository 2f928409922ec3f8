-- ===== src/Santa/Configurations/Keys.antt =====
-- The keys and values of `get_sync_server_config` of zentral/contrib/santa/models.py.
use zentral.Santa.Configurations.{
  sync_config_in, Configuration, Setting, string, number, boolean, Config, config_get, rename_key,
  non_matching, tuple_lt, with_deprecated_keys, SyncConfig, returned, client_mode_text,
  sync_settings, translated, get_sync_server_config, monitor_mode, lockdown_mode,
}
use Prim.Native.String.{◌++◌, count}
use text.Mathlib.TextLemmas.{length-append}
use zentral.Base.{
  Bool, Bool-cases, List, String, [], ap, arith, beq-eq_of, false, if◌then◌else◌, inl, inr, none,
  refl, some, true, ℕ, ◌==◌, ◌∷◌, ◌≡◌, ◌⊎◌, nat_eq, string_eq, option_eq, bool_eq,
}

-- An old agent finds a setting under its old key.
abbrev pub key_for : Bool → String → String → String
key_for is_old old new = if is_old then old else new

abbrev pub Returns : (Config → Type 0) → SyncConfig → Type 0
Returns P (returned config) = P config
Returns P _ = ⊥

-- A setting stands under the one key, and the other is absent.
abbrev pub IsOnlyAt : String → String → Setting → Config → Type 0
IsOnlyAt key other v config = (config_get key config ≡ some v) × (config_get other config ≡ none)

abbrev pub HasSettings : Configuration → String → String → Bool → Config → Type 0
HasSettings c random_1 random_2 is_old config =
    IsOnlyAt (key_for is_old "whitelist_regex" "allowed_path_regex")
      (key_for is_old "allowed_path_regex" "whitelist_regex")
      (string (non_matching random_1 c.allowed_path_regex)) config
    × IsOnlyAt (key_for is_old "blacklist_regex" "blocked_path_regex")
        (key_for is_old "blocked_path_regex" "blacklist_regex")
        (string (non_matching random_2 c.blocked_path_regex)) config
    × IsOnlyAt (key_for is_old "enabled_transitive_whitelisting" "enable_transitive_rules")
        (key_for is_old "enable_transitive_rules" "enabled_transitive_whitelisting")
        (boolean c.enable_transitive_rules) config
    × (config_get "batch_size" config ≡ some (number c.batch_size))

settings_by_age :
    (c : Configuration) (mode random_1 random_2 : String) (is_old : Bool)
    → Returns (HasSettings c random_1 random_2 is_old) (
        if is_old
        then returned (with_deprecated_keys (sync_settings c mode random_1 random_2))
        else returned (sync_settings c mode random_1 random_2))
unfolding sync_settings with_deprecated_keys rename_key config_get
settings_by_age c mode random_1 random_2 true = ((refl, refl), (refl, refl), (refl, refl), refl)
settings_by_age c mode random_1 random_2 false = ((refl, refl), (refl, refl), (refl, refl), refl)

abbrev pub is_before_1_14 : List ℕ → Bool
is_before_1_14 version = tuple_lt version (1 ∷ 14 ∷ [])

translated_settings :
    (c : Configuration) (mode random_1 random_2 : String) (version : List ℕ)
    → Returns
        (HasSettings c random_1 random_2 (is_before_1_14 version))
        (translated (some version) (sync_settings c mode random_1 random_2))
unfolding translated
translated_settings c mode random_1 random_2 version =
    settings_by_age c mode random_1 random_2 (is_before_1_14 version)

-- In both client modes, and for every version that is a list of numbers, an agent gets the two
-- patterns and the transitive setting under the keys that it knows, the deprecated ones before 1.14,
-- and not under the others, and it gets the batch size.
pub get_sync_server_config-keys :
    (c : Configuration) (random_1 random_2 : String) (version : List ℕ)
    → (c.client_mode ≡ monitor_mode) ⊎ (c.client_mode ≡ lockdown_mode)
    → Returns
        (HasSettings c random_1 random_2 (is_before_1_14 version))
        (get_sync_server_config c random_1 random_2 (some version))
unfolding get_sync_server_config sync_config_in client_mode_text sync_settings
get_sync_server_config-keys c random_1 random_2 version (inl m) =
    rw m (translated_settings c "MONITOR" random_1 random_2 version)
get_sync_server_config-keys c random_1 random_2 version (inr m) =
    rw m (translated_settings c "LOCKDOWN" random_1 random_2 version)

placeholder-nonempty :
    (random : String) (b : Bool) → (("NON_MATCHING_PLACEHOLDER_" ++ random) == "") ≡ b → b ≡ false
placeholder-nonempty random false h = refl
placeholder-nonempty random true h =
    let empty = beq-eq_of ("NON_MATCHING_PLACEHOLDER_" ++ random) "" h in
    absurd (omega (arith, length-append "NON_MATCHING_PLACEHOLDER_" random, ap count empty))

-- A pattern that an agent gets is never the empty text, whatever is configured.
non_matching-nonempty : (random regex : String) → (non_matching random regex == "") ≡ false
unfolding non_matching
non_matching-nonempty random regex = elim (Bool-cases (regex == "")) [
  | inl e ↦ rw e (placeholder-nonempty random _ refl)
  | inr e ↦ rw e e
]
