-- ===== src/Santa/RuleSets/Writes.antt =====
-- What one turn of the loop in `RuleSetUpdate.post` (zentral/contrib/santa/api_views.py) does to the
-- list of rules.
use zentral.Base.{
  Bool, Bool-cases, List, String, [], all, and-right, and_of, any, ap, arith, beq-eq_of, beq_refl,
  false, find, find-any, find-is, if◌then◌else◌, inl, inr, ltb, not, refl, select, some, sym, true,
  ℕ, ◌&&◌, ◌==◌, ◌||◌, ◌∙◌, ◌∷◌, ◌≡◌, nat_eq, string_eq, option_eq,
}
use mathlib.Core.Option.{none-ne-some, some-injective}
use zentral.Santa.Rules.{Rule}
use zentral.Santa.RuleUpdates.{RuleValues, update_rule, agrees, same_set}
use zentral.Santa.RuleUpdates.Laws.{update_rule-agrees, same_set_refl}
use zentral.Santa.RuleSets.Updates.{is_rule_of, is_rule_at, new_owned_rule, save_rule}

-- Writing a row: the tests that do not see it, and the tests that the new row passes.
module _ (is_row p : Rule → Bool) (new : Rule) where
  select-save :
      ((x : Rule) → is_row x ≡ true → p x ≡ false)
      → p new ≡ false
      → (rules : List Rule) → select p (save_rule is_row new rules) ≡ select p rules
  select-save away h [] = refl
  select-save away h (x ∷ rules) = ground (arith, away x, select-save away h rules)

  all-save :
      p new ≡ true
      → (rules : List Rule) → all p rules ≡ true
      → all p (save_rule is_row new rules) ≡ true
  all-save h [] k = refl
  all-save h (x ∷ rules) k = ground (arith, all-save h rules)

  any-save :
      p new ≡ true
      → (rules : List Rule) → any is_row rules ≡ true
      → any p (save_rule is_row new rules) ≡ true
  any-save h [] k = k
  any-save h (x ∷ rules) k = ground (arith, any-save h rules)

  any-kept :
      ((x : Rule) → is_row x ≡ true → p x ≡ false)
      → (rules : List Rule) → any p rules ≡ true
      → any p (save_rule is_row new rules) ≡ true
  any-kept away [] k = k
  any-kept away (x ∷ rules) k = ground (arith, away x, any-kept away rules)

module _ (configuration rule_set key : ℕ) (v : RuleValues) where
  -- The rules of others stay, a rule at the key is as it is asked for, and a test that does not see
  -- the key is still passed.
  abbrev pub IsWrite : List Rule → List Rule → Type 0
  IsWrite rules written =
      (select (λ r. not (is_rule_of configuration rule_set r)) written
        ≡ select (λ r. not (is_rule_of configuration rule_set r)) rules)
      × ((n : ℕ)
          → ltb key n ≡ true
          → all (λ r. ltb r.target n) rules ≡ true
          → all (λ r. ltb r.target n) written ≡ true)
      × (any (λ r. is_rule_at configuration rule_set key r && agrees v r) written ≡ true)
      × ((f : Rule → Bool)
          → ((r : Rule) → (r.target == key) ≡ true → f r ≡ false)
          → any f rules ≡ true
          → any f written ≡ true)

  new_owned_rule-agrees : agrees v (new_owned_rule configuration rule_set key v) ≡ true
  unfolding agrees new_owned_rule
  new_owned_rule-agrees =
      rw
        (
          beq_refl v.policy,
          beq_refl v.custom_msg,
          same_set_refl v.serial_numbers,
          same_set_refl v.excluded_serial_numbers,
          same_set_refl v.primary_users,
          same_set_refl v.excluded_primary_users,
          same_set_refl v.tags,
          same_set_refl v.excluded_tags,
        )
        refl

  pub created-IsWrite :
      (rules : List Rule) → IsWrite rules (new_owned_rule configuration rule_set key v ∷ rules)
  unfolding new_owned_rule
  created-IsWrite rules = (
    rw (owned) refl,
    λ n l h. and_of _ _ l h,
    rw (owned, beq_refl key, new_owned_rule-agrees) refl,
    λ f away h. or_of _ _ h,
  )
    where
      owned : ((configuration == configuration) && (some rule_set == some rule_set)) ≡ true
      owned = and_of _ _ (beq_refl configuration) (beq_refl rule_set)

      or_of : (a b : Bool) → b ≡ true → (a || b) ≡ true
      or_of a b h = ground arith

  find-passes :
      (p g : Rule → Bool) (r : Rule) (rules : List Rule)
      → find p rules ≡ some r
      → g r ≡ true
      → any (λ x. p x && g x) rules ≡ true
  find-passes p g r [] h k = absurd (none-ne-some r h)
  find-passes p g r (x ∷ rules) h k = elim (Bool-cases (p x)) [
    | inl same ↦
        let e : x ≡ r =
          some-injective x r (ap (λ b. if b then some x else find p rules) (sym same) ∙ h) in
        rw (same, ap g e, k) refl
    | inr other ↦
        let rest : any (λ x. p x && g x) rules ≡ true =
          find-passes p g r rules (ap (λ b. if b then some x else find p rules) (sym other) ∙ h)
            k in
        rw (other, rest) refl
  ]

  pub present-IsWrite :
      (rules : List Rule) (r : Rule)
      → find (is_rule_at configuration rule_set key) rules ≡ some r
      → agrees v r ≡ true
      → IsWrite rules rules
  present-IsWrite rules r h a = (
    refl,
    λ n l k. k,
    find-passes (is_rule_at configuration rule_set key) (agrees v) r rules h a,
    λ f away k. k,
  )

  not_owned :
      (r : Rule)
      → is_rule_at configuration rule_set key r ≡ true
      → not (is_rule_of configuration rule_set r) ≡ false
  not_owned r h = not_true _ _ h
    where
      not_true : (a b : Bool) → (a && b) ≡ true → not a ≡ false
      not_true a b h = ground arith

  is_rule_at-update :
      (sorted : List String → List String) (r : Rule)
      → is_rule_at configuration rule_set key (update_rule sorted v r)
        ≡ is_rule_at configuration rule_set key r
  unfolding update_rule
  is_rule_at-update sorted r = refl

  at_key :
      (r : Rule) (n : ℕ)
      → is_rule_at configuration rule_set key r ≡ true
      → ltb key n ≡ true
      → ltb r.target n ≡ true
  at_key r n h l =
      let e : r.target ≡ key =
        beq-eq_of r.target key (and-right (is_rule_of configuration rule_set r) _ h) in
      rw e l

  -- The row of a rule that is found is written with what is asked for.
  pub updated-IsWrite :
      (sorted : List String → List String)
      → ((l : List String) → same_set l (sorted l) ≡ true)
      → (rules : List Rule) (r : Rule) → find (is_rule_at configuration rule_set key) rules ≡ some r
      → IsWrite rules
          (save_rule (is_rule_at configuration rule_set key) (update_rule sorted v r) rules)
  updated-IsWrite sorted keeps rules r h =
      let is_row = is_rule_at configuration rule_set key in
      let new = update_rule sorted v r in
      let owned : is_row new ≡ true = is_rule_at-update sorted r ∙ find-is is_row r rules h in
      let agreed = update_rule-agrees sorted v r keeps in
      (
        select-save is_row (λ x. not (is_rule_of configuration rule_set x)) new not_owned
            (not_owned new owned) rules,
        λ n l k. all-save is_row (λ x. ltb x.target n) new (at_key new n owned l) rules k,
        any-save is_row (λ x. is_row x && agrees v x) new (and_of _ _ owned agreed) rules
            (find-any is_row is_row r rules h (find-is is_row r rules h)),
        λ f away k. any-kept is_row f new (λ x is. away x (and-right _ _ is)) rules k,
      )
