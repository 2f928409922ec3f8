-- ===== src/Santa/Forms/Saved.antt =====
-- What a rule form of zentral/contrib/santa/forms.py saves.
use zentral.Santa.Forms.{
  save_rule_form, save_with, create_rule, new_rule, target_of, policy_of, is_valid_rule_form,
  custom_msg_of, checked_policy, has_rule_on, Tables, ScopeData, Subject, RuleFormData, is_clean,
  has_field, has_scope, or_none, validate_scope,
}
use zentral.Santa.Forms.Sound.{
  type_in, is_consistent, is_sound, is_on, type_at, get_or_create-all-is_sound,
  get_or_create-IsFree, points_to_target, has_unique_targets, with_rule, create_rule-free,
}
use zentral.Santa.Targets.Keys.{is_descending, get_or_create-IsKept}
use zentral.Santa.Rules.{Rule, Target, bundle, target_type_eq}
use zentral.Santa.Forms.Valid.{is_clean-validate_scope, is_clean-checked_policy, valid_rule_form}
use zentral.Base.{
  Bool, Option, String, Yields, all, and-left, and-right, any, ap, arith, beq_refl, false, ltb,
  none, not, overlaps, refl, some, subst, sym, true, ℕ, ◌&&◌, ◌==◌, ◌||◌, ◌∙◌, ◌≡◌, nat_eq,
  string_eq, option_eq,
}
use zentral.Santa.Policy.{blocklist, is_bundle_policy}
use zentral.Santa.Targets.{TargetTable, is_target, get_or_create_target, target_eq}

sound_of :
    (l on b block no_msg v users serials tags at : Bool)
    → l ≡ true
    → (not (on && not b) && (not (not block && not no_msg) && v)) ≡ true
    → (not users && (not serials && not tags)) ≡ true
    → at ≡ on
    → (l && ((block || no_msg) && (not users && (not serials && (not tags && (not at || b))))))
      ≡ true
sound_of l on b block no_msg v users serials tags at h k m e = ground arith

sound_rule :
    (targets : TargetTable) (configuration : ℕ) (t : Target) (pk p : ℕ) (custom_msg : String)
    (s : ScopeData)
    → ltb pk targets.next_pk ≡ true
    → type_at targets.rows pk ≡ some t.type
    → has_scope s ≡ true
    → is_clean (checked_policy (t.type == bundle) (some p) custom_msg (validate_scope s)) ≡ true
    → is_sound targets (new_rule configuration pk p custom_msg s) ≡ true
unfolding is_sound new_rule
sound_rule targets configuration t pk p custom_msg s l e h c =
    let on_bundle = ap (λ o. o == some bundle) e in
    let passes =
      sym (is_clean-checked_policy (t.type == bundle) p custom_msg (validate_scope s)) ∙ c in
    let scope = sym (is_clean-validate_scope s h) ∙ and-right _ _ (and-right _ _ passes) in
    sound_of (ltb pk targets.next_pk) (t.type == bundle) (is_bundle_policy p) (p == blocklist)
      (custom_msg == "") (is_clean (validate_scope s))
      (overlaps (or_none s.primary_users) (or_none s.excluded_primary_users))
      (overlaps (or_none s.serial_numbers) (or_none s.excluded_serial_numbers))
      (overlaps (or_none s.tags) (or_none s.excluded_tags)) (type_at targets.rows pk == some bundle)
      l passes scope on_bundle

with_rule-is_consistent :
    (r : Rule) (targets : TargetTable) (tables : Tables)
    → is_descending targets.next_pk targets.rows ≡ true
    → (is_sound targets r && all (is_sound targets) tables.rules) ≡ true
    → has_unique_targets tables.rules ≡ true
    → any (is_on r.configuration r.target) tables.rules ≡ false
    → is_consistent (with_rule r targets tables) ≡ true
with_rule-is_consistent r targets tables d s u f = rw (d, s, u, f) refl

with_rule-has_rule_on :
    (r : Rule) (targets : TargetTable) (tables : Tables) (t : Target)
    → is_target targets t r.target ≡ true
    → has_rule_on r.configuration (with_rule r targets tables) (some t) ≡ true
with_rule-has_rule_on r targets tables t h = rw (beq_refl r.configuration, h) refl

has_field-none {ℓ} : {A : Type ℓ} (o : Option A) → o ≡ none → has_field o ≡ true → ⊥
has_field-none o e h = absurd (false-true (sym (ap has_field e) ∙ h))
  where
    false-true : false ≡ true → ⊥
    false-true h = ground arith

valid-has_target :
    (configuration : ℕ) (tables : Tables) (subject : Subject) (d : RuleFormData)
    → is_valid_rule_form configuration tables subject d ≡ true
    → (has_field (target_of subject d) ≡ true) × (has_field (policy_of subject d.policy) ≡ true)
unfolding is_valid_rule_form
valid-has_target configuration tables subject d h = (and-left _ _ h, and-left _ _ (and-right _ _ h))

-- On consistent tables a valid form is saved without an error. The tables are consistent then: keys go
-- up, no two rules of a configuration are on one target, and each rule points to a target, has a
-- message only with the policy that shows it, excludes nothing that it includes, and has one of the
-- bundles' policies if its target is a bundle. The target of the form has a rule then.
pub save_rule_form-is_consistent :
    (configuration : ℕ) (tables : Tables) (subject : Subject) (d : RuleFormData)
    → is_consistent tables ≡ true
    → is_valid_rule_form configuration tables subject d ≡ true
    → Yields
        (λ saved.
          (is_consistent saved ≡ true)
          × (has_rule_on configuration saved (target_of subject d) ≡ true))
        (save_rule_form configuration tables subject d)
unfolding save_rule_form save_with create_rule
save_rule_form-is_consistent configuration tables subject d k v =
    go (target_of subject d) (policy_of subject d.policy) refl refl
  where
    msg : String
    msg = custom_msg_of subject d.custom_msg

    go :
        (o : Option Target) (p : Option ℕ)
        → target_of subject d ≡ o
        → policy_of subject d.policy ≡ p
        → Yields
            (λ saved. (is_consistent saved ≡ true) × (has_rule_on configuration saved o ≡ true))
            (save_with configuration tables (custom_msg_of subject d.custom_msg) d.scope o p)
    go none p e f = absurd (
        has_field-none (target_of subject d) e
          (valid-has_target configuration tables subject d v).0)
    go (some t) none e f = absurd (
        has_field-none (policy_of subject d.policy) f
          (valid-has_target configuration tables subject d v).1)
    go (some t) (some p) e f =
        let valid = valid_rule_form configuration tables subject d t p e f v in
        let found = get_or_create_target t tables.targets in
        let key = and-left (is_descending tables.targets.next_pk tables.targets.rows) _ k in
        let kept = get_or_create-IsKept t tables.targets key in
        let sound = and-left _ _ (and-right _ _ k) in
        let free =
          get_or_create-IsFree configuration t tables key
            (points_to_target tables.targets tables.rules sound) valid.0 in
        let new =
          sound_rule found.1 configuration t found.0 p (custom_msg_of subject d.custom_msg) d.scope
            kept.1 (ap type_in kept.2) valid.2 valid.1 in
        let r : Rule =
          new_rule configuration found.0 p (custom_msg_of subject d.custom_msg) d.scope in
        let rules : (is_sound found.1 r && all (is_sound found.1) tables.rules) ≡ true =
          rw new (get_or_create-all-is_sound t tables.targets tables.rules key sound) in
        subst
          (Yields (λ saved.
            (is_consistent saved ≡ true) × (has_rule_on configuration saved (some t) ≡ true)))
          (sym (create_rule-free r found.1 tables free))
          (
            with_rule-is_consistent r found.1 tables kept.0 rules (and-right _ _ (and-right _ _ k))
                free,
            with_rule-has_rule_on r found.1 tables t kept.3,
          )
