-- ===== src/Santa/Policy.antt =====
-- The rule policies of zentral/contrib/santa/models.py: numbers in the database, words for the agent.
use zentral.Base.{Bool, String, if◌then◌else◌, ℕ, ◌==◌, ◌||◌, nat_eq, string_eq, option_eq}

-- `Rule.POLICY_CHOICES` and `MachineRule.REMOVE`.
abbrev pub allowlist : ℕ
allowlist = 1

abbrev pub blocklist : ℕ
blocklist = 2

abbrev pub silent_blocklist : ℕ
silent_blocklist = 3

abbrev pub remove : ℕ
remove = 4

abbrev pub allowlist_compiler : ℕ
allowlist_compiler = 5

-- A policy is translated, or the call raises `ValueError`.
pub data Translated : Type 0 where
  word : String → Translated
  value_error : ℕ → Translated

unfoldable pub translate_rule_policy : ℕ → Translated
translate_rule_policy policy =
    if policy == allowlist
    then word "ALLOWLIST"
    else if policy == allowlist_compiler
    then word "ALLOWLIST_COMPILER"
    else if policy == blocklist
    then word "BLOCKLIST"
    else if policy == silent_blocklist
    then word "SILENT_BLOCKLIST"
    else if policy == remove
    then word "REMOVE"
    else value_error policy

-- Membership of `Rule.POLICY_CHOICES`, which a stored rule's policy has.
abbrev pub is_rule_policy : ℕ → Bool
is_rule_policy p =
    p == allowlist || (p == blocklist || (p == silent_blocklist || p == allowlist_compiler))

-- A policy that `translate_rule_policy` knows.
abbrev pub is_known : ℕ → Bool
is_known p = is_rule_policy p || p == remove

-- Membership of `Rule.BUNDLE_POLICIES`.
abbrev pub is_bundle_policy : ℕ → Bool
is_bundle_policy p = p == allowlist || p == allowlist_compiler
