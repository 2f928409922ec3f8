-- ===== src/Santa/Changes/Fits.antt =====
-- What the query of zentral/contrib/santa/models.py sends for a target is what a rule of the target
-- asks for, or a removal if there is none.
use mathlib.Core.Path.{ap₂}
use mathlib.Core.List.{flat_map}
use zentral.Base.{
  Bool, Bool-cases, List, [], any, any-append, any-flat_map, any-map, any-never, any-select,
  any-select-false, any_mono, arith, false, inl, inr, is_empty, map, not, refl, select, true, ℕ,
  ◌&&◌, ◌++◌, ◌==◌, ◌||◌, ◌∙◌, ◌∷◌, ◌≡◌, nat_eq, string_eq, option_eq,
}
use zentral.Santa.Policy.{remove, is_rule_policy, is_known}
use zentral.Santa.Rules.{in_scope, Rule, Bundle, EnrolledMachine}
use zentral.Santa.Changes.{
  MachineRule, Tables, ExpandedRule, ProductRow, both, machine_only, join_rule, expand_rule,
  expand_bundle, bundle_row, updates_of, removals_of, is_stale, changed_row, removed_row,
  changed_rules, rule_product, machine_rules, expanded_rules, pending_rules,
}
use zentral.Santa.Changes.Wanted.{targets, wanted}
use zentral.Santa.Changes.Joins.{unmatched, any-targets_sym, any-wanted}
use zentral.Santa.Changes.Order.{
  RowTest, changes, news, any-order_by_sha256, any-join_targets, any-distinct_changes,
}

or-true_right : (a b : Bool) → b ≡ true → (a || b) ≡ true
or-true_right a b h = ground arith

abbrev asks : ℕ → ℕ → ExpandedRule → Bool
asks p v er = (er.policy == p) && (er.version == v)

-- A policy and a version that fit the rules of a target.
unfoldable pub fits : List ExpandedRule → ℕ → ℕ → Bool
fits [] p v = p == remove
fits (w ∷ ws) p v = any (asks p v) (w ∷ ws)

abbrev pub misfit : ℕ → List ExpandedRule → RowTest
misfit t ers a p v = (a == t) && not (fits (wanted t ers) p v)

asks_refl : (er : ExpandedRule) → asks er.policy er.version er ≡ true
asks_refl er = ground arith

-- every rule fits a list of rules that it stands in
any-unfit :
    (ws vs : List ExpandedRule)
    → ((p v : ℕ) → any (asks p v) vs ≡ true → fits ws p v ≡ true)
    → any (λ er. not (fits ws er.policy er.version)) vs ≡ false
any-unfit ws [] h = refl
any-unfit ws (v ∷ vs) h = ground (
  arith,
  h v.policy v.version,
  asks_refl v,
  any-unfit ws vs (λ p v' e. h p v' (or-true_right (asks p v' v) _ e)),
)

fits-asks : (ws : List ExpandedRule) (p v : ℕ) → any (asks p v) ws ≡ true → fits ws p v ≡ true
unfolding fits
fits-asks [] p v h = cc
fits-asks (w ∷ ws) p v h = h

any-misfit_rules :
    (t : ℕ) (ers : List ExpandedRule)
    → any (λ er. misfit t ers er.target_id er.policy er.version) ers ≡ false
any-misfit_rules t ers =
    any-select (targets t) (λ er. not (fits (wanted t ers) er.policy er.version)) ers
    ∙ any-unfit (wanted t ers) (wanted t ers) (fits-asks (wanted t ers))

abbrev updates_misfit : RowTest → ProductRow → Bool
updates_misfit q p = any (changes q) (updates_of p)

abbrev removals_misfit : RowTest → ProductRow → Bool
removals_misfit q p = any (changes q) (removals_of p)

update_misfit :
    (q : RowTest) (er : ExpandedRule) (mr : MachineRule)
    → q er.target_id er.policy er.version ≡ false
    → updates_misfit q (both er mr) ≡ false
unfolding updates_of changed_row
update_misfit q er mr h = elim (Bool-cases (is_stale er mr)) [ inl e ↦ rw (e, h) | inr e ↦ rw e ]

-- An update carries its rule's target, policy and version.
updates_of-join_rule :
    (q : RowTest) (er : ExpandedRule) (mrs : List MachineRule)
    → q er.target_id er.policy er.version ≡ false
    → any (updates_misfit q) (join_rule er mrs) ≡ false
unfolding join_rule updates_of changed_row
updates_of-join_rule q er [] h = rw h
updates_of-join_rule q er (mr ∷ mrs) h =
    any-map (updates_misfit q) (both er) (mr ∷ mrs)
    ∙ any-never (λ x. updates_misfit q (both er x)) (λ x. update_misfit q er x h) (mr ∷ mrs)

removals_of-join_rule :
    (q : RowTest) (er : ExpandedRule) (mrs : List MachineRule)
    → any (removals_misfit q) (join_rule er mrs) ≡ false
unfolding join_rule removals_of
removals_of-join_rule q er [] = refl
removals_of-join_rule q er (mr ∷ mrs) =
    any-map (removals_misfit q) (both er) (mr ∷ mrs)
    ∙ any-never (λ x. removals_misfit q (both er x)) (λ x. refl) (mr ∷ mrs)

fits-remove : (ws : List ExpandedRule) (v : ℕ) → is_empty ws ≡ true → fits ws remove v ≡ true
unfolding fits
fits-remove [] v h = refl
fits-remove (w ∷ ws) v h = cc

any-misfit-unmatched :
    (t : ℕ) (ers : List ExpandedRule) (mrs : List MachineRule)
    → any (removals_misfit (misfit t ers)) (map machine_only (unmatched ers mrs)) ≡ false
unfolding removals_of unmatched removed_row
any-misfit-unmatched t ers [] = refl
any-misfit-unmatched t ers (mr ∷ mrs) = ground (
  arith,
  any-misfit-unmatched t ers mrs,
  any-targets_sym t mr ers,
  any-wanted t ers,
  fits-remove (wanted t ers) 1,
)

any-false-product :
    (q : RowTest) (ers : List ExpandedRule) (mrs : List MachineRule)
    → any (λ er. q er.target_id er.policy er.version) ers ≡ false
    → any (removals_misfit q) (map machine_only (unmatched ers mrs)) ≡ false
    → any (changes q) (changed_rules (rule_product ers mrs)) ≡ false
unfolding changed_rules rule_product unmatched
any-false-product q ers mrs h k =
    let of_target = λ (er : ExpandedRule). select (λ mr. mr.target == er.target_id) mrs in
    let join = λ (er : ExpandedRule). join_rule er (of_target er) in
    let rest = map machine_only (unmatched ers mrs) in
    let ps = flat_map join ers ++ rest in
    any-distinct_changes q (flat_map updates_of ps ++ flat_map removals_of ps)
    ∙ any-append (changes q) (flat_map updates_of ps) (flat_map removals_of ps)
    ∙ ap₂ (λ a b. a || b)
        (any-flat_map (changes q) updates_of ps
          ∙ any-append (updates_misfit q) (flat_map join ers) rest
          ∙ ap₂ (λ a b. a || b)
              (any-flat_map (updates_misfit q) join ers
                ∙ any_mono (λ er. any (updates_misfit q) (join er))
                    (λ er. q er.target_id er.policy er.version)
                    (λ er e. updates_of-join_rule q er (of_target er) e) ers h)
              (any-map (updates_misfit q) machine_only (unmatched ers mrs)
                ∙ any-never (λ mr. updates_misfit q (machine_only mr)) (λ mr. refl)
                    (unmatched ers mrs)))
        (any-flat_map (changes q) removals_of ps
          ∙ any-append (removals_misfit q) (flat_map join ers) rest
          ∙ ap₂ (λ a b. a || b)
              (any-flat_map (removals_misfit q) join ers
                ∙ any-never (λ er. any (removals_misfit q) (join er))
                    (λ er. removals_of-join_rule q er (of_target er)) ers)
              k)

any-false-pending_rules :
    (q : RowTest) (db : Tables) (m : EnrolledMachine) (tags : List ℕ) (rows : List MachineRule)
    → let ers = expanded_rules db m tags in
      any (λ er. q er.target_id er.policy er.version) ers ≡ false
      → any (removals_misfit q) (map machine_only (unmatched ers (machine_rules m.pk rows))) ≡ false
      → any (news q) (pending_rules db m tags rows) ≡ false
unfolding pending_rules
any-false-pending_rules q db m tags rows h k =
    any-order_by_sha256 q _
    ∙ any-join_targets q db.get_target _
    ∙ any-false-product q (expanded_rules db m tags) (machine_rules m.pk rows) h k

-- Whatever is sent for a target has the policy and the version that a rule asks for, or it is a
-- removal where no rule does.
pub any-misfit-pending_rules :
    (db : Tables) (m : EnrolledMachine) (tags : List ℕ) (rows : List MachineRule) (t : ℕ)
    → any (news (misfit t (expanded_rules db m tags))) (pending_rules db m tags rows) ≡ false
any-misfit-pending_rules db m tags rows t =
    let ers = expanded_rules db m tags in
    any-false-pending_rules (misfit t ers) db m tags rows (any-misfit_rules t ers)
      (any-misfit-unmatched t ers (machine_rules m.pk rows))

-- A stored rule has one of the policies of `Rule.POLICY_CHOICES`.
abbrev pub HasRulePolicies : List Rule → Type 0
HasRulePolicies rules = any (λ r. not (is_rule_policy r.policy)) rules ≡ false

expand_bundle-policy :
    (q : ℕ → Bool) (r : Rule) (b : Bundle)
    → q r.policy ≡ false
    → any (λ er. q er.policy) (expand_bundle r b) ≡ false
unfolding expand_bundle
expand_bundle-policy q r b h = elim (Bool-cases (is_empty b.binary_targets)) [
  | inl e ↦ rw (e, h)
  | inr e ↦ rw e (
      any-map (λ (er : ExpandedRule). q er.policy) (bundle_row r b) b.binary_targets
      ∙ any-never (λ x. q r.policy) (λ x. h) b.binary_targets)
]

expand_rule-policy :
    (q : ℕ → Bool) (r : Rule) (bs : List Bundle)
    → q r.policy ≡ false
    → any (λ er. q er.policy) (expand_rule r bs) ≡ false
unfolding expand_rule
expand_rule-policy q r [] h = rw h
expand_rule-policy q r (b ∷ bs) h =
    any-flat_map (λ er. q er.policy) (expand_bundle r) (b ∷ bs)
    ∙ any-never (λ x. any (λ er. q er.policy) (expand_bundle r x))
        (λ x. expand_bundle-policy q r x h) (b ∷ bs)

abbrev bundles_of : Tables → Rule → List Bundle
bundles_of db r = select (λ b. b.target == r.target) db.bundles

-- The rules that reach a machine have the policies of stored rules.
pub expanded_rules-policies :
    (q : ℕ → Bool) (db : Tables) (m : EnrolledMachine) (tags : List ℕ)
    → any (λ r. q r.policy) db.rules ≡ false
    → any (λ er. q er.policy) (expanded_rules db m tags) ≡ false
unfolding expanded_rules
expanded_rules-policies q db m tags h =
    any-flat_map (λ er. q er.policy) (λ r. expand_rule r (bundles_of db r))
      (select (in_scope m tags) db.rules)
    ∙ any_mono (λ r. any (λ er. q er.policy) (expand_rule r (bundles_of db r))) (λ r. q r.policy)
        (λ r e. expand_rule-policy q r (bundles_of db r) e) _
        (any-select-false (λ r. q r.policy) (in_scope m tags) db.rules h)

-- What is sent has a policy that `translate_rule_policy` knows.
pub any-unknown-pending_rules :
    (db : Tables) (m : EnrolledMachine) (tags : List ℕ) (rows : List MachineRule)
    → HasRulePolicies db.rules
    → any (λ n. not (is_known n.policy)) (pending_rules db m tags rows) ≡ false
unfolding removals_of removed_row
any-unknown-pending_rules db m tags rows h =
    let ers = expanded_rules db m tags in
    let left = unmatched ers (machine_rules m.pk rows) in
    any-false-pending_rules (λ a p v. not (is_known p)) db m tags rows
      (any_mono (λ (er : ExpandedRule). not (is_known er.policy))
        (λ er. not (is_rule_policy er.policy)) (λ er e. ground arith) ers
        (expanded_rules-policies (λ p. not (is_rule_policy p)) db m tags h))
      (any-map (removals_misfit (λ a p v. not (is_known p))) machine_only left
        ∙ any-never (λ mr. removals_misfit (λ a p v. not (is_known p)) (machine_only mr))
            (λ mr. refl) left)
