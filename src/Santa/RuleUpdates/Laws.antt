-- ===== src/Santa/RuleUpdates/Laws.antt =====
-- What an update of a rule in zentral/contrib/santa changes, tells and distributes.
use zentral.Santa.Changes.{ExpandedRule, MachineRule, is_stale}
use zentral.Base.{
  Bool, Bool-cases, Equality, List, String, [], all, and_of, ap, arith, beq-eq_of, beq_refl,
  contains, false, if◌then◌else◌, inl, inr, is_empty, not, refl, sym, true, ℕ, ◌&&◌, ◌==◌, ◌||◌,
  ◌∙◌, ◌∷◌, ◌≡◌, nat_eq, string_eq, option_eq, bool_eq,
}
use mathlib.Core.Path.{ap₂}
use zentral.Santa.Rules.{Rule}
use zentral.Santa.RuleUpdates.{
  RuleValues, update_rule, agrees, rule_changes, has_no_changes, same_set, minus, stored,
  stored_tags, set_change, is_no_change, policy_change, msg_change,
}

and_cong : {a b c d : Bool} → a ≡ b → c ≡ d → (a && c) ≡ (b && d)
and_cong h k = ap₂ (λ x y. x && y) h k

or_true : (b : Bool) → (b || true) ≡ true
or_true b = ground arith

module _ {ℓ} {A : Type ℓ} ⦃e : Equality A⦄ where
  is_empty-minus : (xs ys : List A) → is_empty (minus xs ys) ≡ all (contains ys) xs
  is_empty-minus [] ys = refl
  is_empty-minus (x ∷ xs) ys = ground (arith, is_empty-minus xs ys)

  is_no_change-set : (new old : List A) → is_no_change (set_change new old) ≡ same_set new old
  is_no_change-set new old = ap₂ (λ a b. a && b) (is_empty-minus new old) (is_empty-minus old new)

  contains-all :
      (xs ys : List A)
      → ((x : A) → contains xs x ≡ true → contains ys x ≡ true)
      → all (contains ys) xs ≡ true
  contains-all [] ys h = refl
  contains-all (x ∷ xs) ys h =
      and_of _ _ (h x (rw (beq_refl x) refl))
        (contains-all xs ys (λ y k. h y (rw k (or_true (x == y)))))

  pub same_set_refl : (xs : List A) → same_set xs xs ≡ true
  same_set_refl xs = rw (contains-all xs xs (λ x h. h)) refl

is_no_change-policy : (new old : ℕ) → is_no_change (policy_change new old) ≡ (old == new)
is_no_change-policy new old = ground arith

both_empty : (new old : String) → (new == "") ≡ true → (old == "") ≡ true → (old == new) ≡ true
both_empty new old h k =
    ap₂ (λ a b. a == b) (beq-eq_of old "" k) (beq-eq_of new "" h) ∙ beq_refl {A = String} ""

is_no_change-msg : (new old : String) → is_no_change (msg_change new old) ≡ (old == new)
is_no_change-msg new old = elim (Bool-cases (old == new)) [
  | inl same ↦ rw same refl
  | inr other ↦ rw other (told (new == "") (old == "") refl refl other)
]
  where
    told :
        (a b : Bool)
        → (new == "") ≡ a
        → (old == "") ≡ b
        → (old == new) ≡ false
        → (is_empty (if a then [] else new ∷ []) && is_empty (if b then [] else old ∷ [])) ≡ false
    told false b h k n = refl
    told true false h k n = refl
    told true true h k n = sym (both_empty new old h k) ∙ n

-- An update posts an event exactly if the rule was not as it is asked for.
has_no_changes_lem : (v : RuleValues) (r : Rule) → has_no_changes (rule_changes v r) ≡ agrees v r
unfolding has_no_changes rule_changes agrees
has_no_changes_lem v r = and_cong (is_no_change-policy v.policy r.policy) (
    and_cong (is_no_change-msg v.custom_msg r.custom_msg) (
      and_cong (is_no_change-set v.serial_numbers r.serial_numbers) (
        and_cong (is_no_change-set v.excluded_serial_numbers r.excluded_serial_numbers) (
          and_cong (is_no_change-set v.primary_users r.primary_users) (
            and_cong (is_no_change-set v.excluded_primary_users r.excluded_primary_users) (
              and_cong (is_no_change-set v.tags r.tags)
                (is_no_change-set v.excluded_tags r.excluded_tags)))))))

stored-same_set :
    (store : List String → List String) (new old : List String)
    → ((l : List String) → same_set l (store l) ≡ true)
    → same_set new (stored store new old) ≡ true
stored-same_set store new old keeps = elim (Bool-cases (same_set new old)) [
  | inl e ↦ ap (λ b. same_set new (if b then old else store new)) e ∙ e
  | inr e ↦ ap (λ b. same_set new (if b then old else store new)) e ∙ keeps new
]

stored_tags-same_set : (new old : List ℕ) → same_set new (stored_tags new old) ≡ true
stored_tags-same_set new old = elim (Bool-cases (same_set new old)) [
  | inl e ↦ ap (λ b. same_set new (if b then old else new)) e ∙ e
  | inr e ↦ ap (λ b. same_set new (if b then old else new)) e ∙ same_set_refl new
]

-- After an update a rule is as it is asked for, if what is stored of a set is the set.
pub update_rule-agrees :
    (store : List String → List String) (v : RuleValues) (r : Rule)
    → ((l : List String) → same_set l (store l) ≡ true)
    → agrees v (update_rule store v r) ≡ true
unfolding agrees update_rule
update_rule-agrees store v r keeps = and_of _ _ (beq_refl v.policy) (
    and_of _ _ (beq_refl v.custom_msg) (
      and_of _ _ (stored-same_set store v.serial_numbers r.serial_numbers keeps) (
        and_of _ _ (stored-same_set store v.excluded_serial_numbers r.excluded_serial_numbers keeps)
          (and_of _ _ (stored-same_set store v.primary_users r.primary_users keeps) (
            and_of _ _
              (stored-same_set store v.excluded_primary_users r.excluded_primary_users keeps)
              (and_of _ _ (stored_tags-same_set v.tags r.tags)
                (stored_tags-same_set v.excluded_tags r.excluded_tags)))))))

-- A machine that has a rule as it was gets it again exactly if its policy or its message changes.
update_rule-is_stale :
    (store : List String → List String) (v : RuleValues) (r : Rule) (er : ExpandedRule)
    (mr : MachineRule)
    → er.policy ≡ (update_rule store v r).policy
    → er.version ≡ (update_rule store v r).version
    → mr.policy ≡ r.policy
    → mr.version ≡ r.version
    → is_stale er mr ≡ not ((r.policy == v.policy) && (r.custom_msg == v.custom_msg))
unfolding is_stale update_rule
update_rule-is_stale store v r er mr p w q x = rw (p, w, q, x) (ground arith)
