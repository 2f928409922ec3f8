-- ===== src/Santa/Forms/Sound.antt =====
-- What holds of the stored rules of zentral/contrib/santa, and that a new target keeps it.
use zentral.Santa.Forms.{has_rule_on, Tables, create_rule}
use zentral.Santa.Targets.Keys.{is_descending, target_at, get_or_create-IsKept, is_target-at}
use zentral.Base.{
  Bool, Bool-cases, List, Option, [], all, all_mono, and-left, and-right, any, any_mono-all, ap,
  arith, beq-eq_of, false, inl, inr, ltb, none, not, overlaps, refl, some, sym, true, ℕ, ◌&&◌, ◌==◌,
  ◌||◌, ◌∙◌, ◌∷◌, ◌≡◌, nat_eq, string_eq, option_eq,
}
use zentral.Santa.Policy.{blocklist, is_bundle_policy}
use zentral.Santa.Rules.{Rule, Target, TargetType, bundle, target_type_eq}
use zentral.Santa.Targets.{TargetRow, TargetTable, is_target, get_or_create_target, target_eq}

abbrev pub type_in : Option Target → Option TargetType
type_in none = none
type_in (some t) = some t.type

abbrev pub type_at : List TargetRow → ℕ → Option TargetType
type_at rows pk = type_in (target_at rows pk)

-- A rule points to a target, has no message that is not shown, excludes nothing that it includes,
-- and has a bundle policy if its target is a bundle.
unfoldable pub is_sound : TargetTable → Rule → Bool
is_sound targets r =
    ltb r.target targets.next_pk
    && (((r.policy == blocklist) || (r.custom_msg == ""))
        && (not (overlaps r.primary_users r.excluded_primary_users)
            && (not (overlaps r.serial_numbers r.excluded_serial_numbers)
                && (not (overlaps r.tags r.excluded_tags)
                    && (not (type_at targets.rows r.target == some bundle)
                        || is_bundle_policy r.policy)))))

abbrev pub is_on : ℕ → ℕ → Rule → Bool
is_on configuration target r = (r.configuration == configuration) && (r.target == target)

-- No two rules of a configuration are on one target.
abbrev pub has_unique_targets : List Rule → Bool
has_unique_targets [] = true
has_unique_targets (r ∷ rules) =
    not (any (is_on r.configuration r.target) rules) && has_unique_targets rules

abbrev pub is_consistent : Tables → Bool
is_consistent tables =
    is_descending tables.targets.next_pk tables.targets.rows
    && (all (is_sound tables.targets) tables.rules && has_unique_targets tables.rules)

-- A rule that is sound stays sound when a target is added.
is_sound-kept :
    (old new : TargetTable) (r : Rule)
    → ((k : ℕ)
        → ltb k old.next_pk ≡ true
        → (ltb k new.next_pk ≡ true) × (target_at new.rows k ≡ target_at old.rows k))
    → is_sound old r ≡ true
    → is_sound new r ≡ true
unfolding is_sound
is_sound-kept old new r kept h =
    let k = kept r.target (and-left _ _ h) in rw (k.0, k.1) (and-right _ _ h)

pub get_or_create-all-is_sound :
    (t : Target) (table : TargetTable) (rules : List Rule)
    → is_descending table.next_pk table.rows ≡ true
    → all (is_sound table) rules ≡ true
    → all (is_sound (get_or_create_target t table).1) rules ≡ true
get_or_create-all-is_sound t table rules d h =
    all_mono (is_sound table) (is_sound (get_or_create_target t table).1) rules
      (λ r.
        is_sound-kept table (get_or_create_target t table).1 r (get_or_create-IsKept t table d).4)
      h

and_false_of : (a b : Bool) → (a && b) ≡ false → b ≡ true → (c : Bool) → (a && c) ≡ false
and_false_of a b h k c = ground arith

and_false : (a : Bool) → (a && false) ≡ false
and_false a = ground arith

pub points_to_target :
    (targets : TargetTable) (rules : List Rule)
    → all (is_sound targets) rules ≡ true
    → all (λ r. ltb r.target targets.next_pk) rules ≡ true
unfolding is_sound
points_to_target targets rules =
    all_mono (is_sound targets) (λ r. ltb r.target targets.next_pk) rules (λ r h. and-left _ _ h)

-- No rule is on the key that is found or created for a target that has no rule.
pub get_or_create-IsFree :
    (configuration : ℕ) (t : Target) (tables : Tables)
    → is_descending tables.targets.next_pk tables.targets.rows ≡ true
    → all (λ r. ltb r.target tables.targets.next_pk) tables.rules ≡ true
    → has_rule_on configuration tables (some t) ≡ false
    → any (is_on configuration (get_or_create_target t tables.targets).0) tables.rules ≡ false
unfolding is_target
get_or_create-IsFree configuration t tables d s h =
    any_mono-all (λ r. ltb r.target tables.targets.next_pk)
      (is_on configuration (get_or_create_target t tables.targets).0)
      (λ r. (r.configuration == configuration) && is_target tables.targets t r.target) tables.rules
      on_target s h
  where
    on_target :
        (r : Rule)
        → ltb r.target tables.targets.next_pk ≡ true
        → ((r.configuration == configuration) && is_target tables.targets t r.target) ≡ false
        → is_on configuration (get_or_create_target t tables.targets).0 r ≡ false
    on_target r l k = elim (Bool-cases (r.target == (get_or_create_target t tables.targets).0)) [
      | inl same ↦
          let kept = get_or_create-IsKept t tables.targets d in
          let e =
            sym ((kept.4 r.target l).1)
            ∙ ap (target_at (get_or_create_target t tables.targets).1.rows)
                (beq-eq_of r.target (get_or_create_target t tables.targets).0 same)
            ∙ kept.2 in
          let found : is_target tables.targets t r.target ≡ true =
            is_target-at t r.target tables.targets.next_pk tables.targets.rows d e in
          and_false_of _ _ k found (r.target == (get_or_create_target t tables.targets).0)
      | inr other ↦ rw other (and_false _)
    ]

-- A rule is created where no other rule is.
abbrev pub with_rule : Rule → TargetTable → Tables → Tables
with_rule r targets tables = record tables { targets = targets; rules = r ∷ tables.rules }

pub create_rule-free :
    (r : Rule) (targets : TargetTable) (tables : Tables)
    → any (is_on r.configuration r.target) tables.rules ≡ false
    → create_rule r targets tables ≡ some (with_rule r targets tables)
unfolding create_rule
create_rule-free r targets tables f = rw f refl
