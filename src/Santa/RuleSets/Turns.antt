-- ===== src/Santa/RuleSets/Turns.antt =====
-- What one turn of the loop in `RuleSetUpdate.post` (zentral/contrib/santa/api_views.py) does to the
-- tables.
use zentral.Santa.Forms.Sound.{is_on, create_rule-free, with_rule}
use zentral.Santa.RuleSets.States.{IsKeyed, others, is_on_target, is_taken, is_met, IsTurn}
use zentral.Base.{
  Bool, Bool-cases, List, Option, String, Yields, Yields-bind-some, Yields-if, all-select, all-true,
  all_mono, and-left, and-right, and_of, any, any-implies, any-or, any-select, any_mono-all, ap,
  arith, beq-eq_of, beq_refl, contains, false, find, find-none, inl, inr, ltb, none, not,
  or_left_of, some, sym, true, ℕ, ◌&&◌, ◌==◌, ◌||◌, ◌∙◌, ◌∷◌, ◌≡◌, nat_eq, string_eq, option_eq,
}
use zentral.Santa.Rules.{Rule, Target}
use zentral.Santa.Targets.{TargetTable, get_or_create_target, target_eq}
use zentral.Santa.Targets.Keys.{target_at, get_or_create-IsKept}
use zentral.Santa.Forms.{create_rule}
use zentral.Santa.RuleUpdates.{RuleValues, agrees, same_set}
use zentral.Santa.RuleSets.Updates.{Progress, is_rule_of, is_rule_at, new_owned_rule, upsert}
use zentral.Santa.RuleSets.Writes.{IsWrite, created-IsWrite, present-IsWrite, updated-IsWrite}

and_false : (a : Bool) → (a && false) ≡ false
and_false a = ground arith

off_of :
    (c o k m : Bool)
    → (((c && o) && k) || (not (c && o) && (c && m))) ≡ false
    → k ≡ true
    → m ≡ true
    → (c && k) ≡ false
off_of c o k m h e f = ground arith

met_of :
    (o k a m c : Bool)
    → ((o && k) && a) ≡ true
    → m ≡ true
    → c ≡ true
    → ((o && m) && (a && c)) ≡ true
met_of o k a m c h i j = ground arith

unmet_of : (o m c : Bool) → m ≡ false → ((o && m) && c) ≡ false
unmet_of o m c h = ground arith

still_of :
    (o m a c n d : Bool)
    → ((o && m) && (a && c)) ≡ true
    → n ≡ m
    → ((o && n) && (a && (d || c))) ≡ true
still_of o m a c n d h e = ground arith

module _ (configuration rule_set : ℕ) where
  now :
      (new : TargetTable) (key : ℕ) (t : Target) (v : RuleValues) (found : List ℕ) (r : Rule)
      → target_at new.rows key ≡ some t
      → (is_rule_at configuration rule_set key r && agrees v r) ≡ true
      → is_met configuration rule_set t v new (key ∷ found) r ≡ true
  now new key t v found r k e =
      let at : r.target ≡ key =
        beq-eq_of r.target key
          (and-right (is_rule_of configuration rule_set r) _ (and-left _ _ e)) in
      met_of (is_rule_of configuration rule_set r) (r.target == key) (agrees v r)
        (target_at new.rows r.target == some t) (contains (key ∷ found) r.target) e
        (ap (λ x. target_at new.rows x == some t) at ∙ ap (λ o. o == some t) k ∙ beq_refl t)
        (or_left_of (key == r.target) _ (ap (λ x. key == x) at ∙ beq_refl key))

  away :
      (new : TargetTable) (key : ℕ) (t : Target) (found : List ℕ) (u : Target) (w : RuleValues)
      → (t == u) ≡ false
      → target_at new.rows key ≡ some t
      → (r : Rule) → (r.target == key) ≡ true
      → is_met configuration rule_set u w new (key ∷ found) r ≡ false
  away new key t found u w other k r e =
      let at : r.target ≡ key = beq-eq_of r.target key e in
      unmet_of (is_rule_of configuration rule_set r) (target_at new.rows r.target == some u)
        (agrees w r && contains (key ∷ found) r.target)
        (ap (λ x. target_at new.rows x == some u) at ∙ ap (λ o. o == some u) k ∙ other)

  still :
      (old new : TargetTable) (key : ℕ) (found : List ℕ) (u : Target) (w : RuleValues) (r : Rule)
      → target_at new.rows r.target ≡ target_at old.rows r.target
      → is_met configuration rule_set u w old found r ≡ true
      → is_met configuration rule_set u w new (key ∷ found) r ≡ true
  still old new key found u w r k e =
      still_of (is_rule_of configuration rule_set r) (target_at old.rows r.target == some u)
        (agrees w r) (contains found r.target) (target_at new.rows r.target == some u)
        (key == r.target) e (ap (λ o. o == some u) k)

  found_key :
      (new : TargetTable) (key : ℕ) (ts : List Target) {t : Target}
      → target_at new.rows key ≡ some t
      → contains ts t ≡ true
      → any (λ w. target_at new.rows key == some w) ts ≡ true
  found_key new key ts {t} k h =
      any-implies (λ w. true) (λ w. w == t) (λ w. target_at new.rows key == some w) ts
        (λ w l e. ap (λ o. o == some w) k ∙ ap (λ x. t == x) (beq-eq_of w t e) ∙ beq_refl t)
        (all-true ts) h

  -- A write of the rules at the key of a target is a turn.
  write-IsTurn :
      (t : Target) (v : RuleValues) (targets : TargetTable) (rules written : List Rule)
      (found : List ℕ)
      → IsKeyed targets rules
      → IsWrite configuration rule_set (get_or_create_target t targets).0 v rules written
      → IsTurn configuration rule_set t v targets rules found
          (get_or_create_target t targets).1
          written
          ((get_or_create_target t targets).0 ∷ found)
  write-IsTurn t v targets rules written found keyed write =
      let new = (get_or_create_target t targets).1 in
      let key = (get_or_create_target t targets).0 in
      let kept = get_or_create-IsKept t targets keyed.0 in
      (
        (
          kept.0,
          write.1 new.next_pk kept.1 (
              all_mono (λ r. ltb r.target targets.next_pk) (λ r. ltb r.target new.next_pk) rules
                (λ r l. (kept.4 r.target l).0) keyed.1),
        ),
        write.0,
        λ u free.
            ap (any (is_on_target configuration rule_set new u)) write.0
            ∙ any_mono-all (λ r. ltb r.target targets.next_pk)
                (is_on_target configuration rule_set new u)
                (is_on_target configuration rule_set targets u)
                (others configuration rule_set rules)
                (λ r l e.
                  ap (λ o. (r.configuration == configuration) && (o == some u))
                    (kept.4 r.target l).1
                  ∙ e)
                (all-select _ _ rules keyed.1) free,
        any-implies (λ r. true) (λ r. is_rule_at configuration rule_set key r && agrees v r)
            (is_met configuration rule_set t v new (key ∷ found)) written
            (λ r l e. now new key t v found r kept.2 e) (all-true written) write.2,
        λ u w other e.
            write.3 (is_met configuration rule_set u w new (key ∷ found))
              (away new key t found u w other kept.2)
              (any-implies (λ r. ltb r.target targets.next_pk)
                (is_met configuration rule_set u w targets found)
                (is_met configuration rule_set u w new (key ∷ found)) rules
                (λ r l e. still targets new key found u w r (kept.4 r.target l).1 e) keyed.1 e),
        λ ts asked e. and_of _ _ (and_of _ _ kept.1 (found_key new key ts kept.2 asked)) (
            all_mono
              (λ k. ltb k targets.next_pk && any (λ w. target_at targets.rows k == some w) ts)
              (λ k. ltb k new.next_pk && any (λ w. target_at new.rows k == some w) ts) found
              (λ k h.
                let q = kept.4 k (and-left _ _ h) in
                and_of _ _ q.0 (ap (λ o. any (λ w. o == some w) ts) q.1 ∙ and-right _ _ h))
              e),
      )

  -- A rule is on the key if it is the rule set's own there, or another on the target.
  none_on_key :
      (t : Target) (targets : TargetTable) (rules : List Rule)
      → IsKeyed targets rules
      → is_taken configuration rule_set t targets rules ≡ false
      → any (is_rule_at configuration rule_set (get_or_create_target t targets).0) rules ≡ false
      → any (is_on configuration (get_or_create_target t targets).0) rules ≡ false
  none_on_key t targets rules keyed free e =
      let key = (get_or_create_target t targets).0 in
      let kept = get_or_create-IsKept t targets keyed.0 in
      let is_other : Rule → Bool = λ r. not (is_rule_of configuration rule_set r) in
      any_mono-all (λ r. ltb r.target targets.next_pk) (is_on configuration key)
        (λ r.
          is_rule_at configuration rule_set key r
          || (is_other r && is_on_target configuration rule_set targets t r))
        rules
        (λ r l h. elim (Bool-cases (r.target == key)) [
          | inl same ↦
              let at =
                sym ((kept.4 r.target l).1)
                ∙ ap (target_at (get_or_create_target t targets).1.rows)
                    (beq-eq_of r.target key same)
                ∙ kept.2 in
              off_of (r.configuration == configuration) (r.rule_set == some rule_set)
                (r.target == key) (target_at targets.rows r.target == some t) h same
                (ap (λ o. o == some t) at ∙ beq_refl t)
          | inr other ↦ rw other (and_false _)
        ])
        keyed.1
        (any-or (is_rule_at configuration rule_set key)
          (λ r. is_other r && is_on_target configuration rule_set targets t r) rules e
          (any-select is_other (is_on_target configuration rule_set targets t) rules ∙ free))

  pub upsert-IsTurn :
      (sorted : List String → List String)
      → ((l : List String) → same_set l (sorted l) ≡ true)
      → (t : Target) (v : RuleValues) (p : Progress) → IsKeyed p.tables.targets p.tables.rules
      → is_taken configuration rule_set t p.tables.targets p.tables.rules ≡ false
      → (o : Option Rule)
      → find
          (is_rule_at configuration rule_set (get_or_create_target t p.tables.targets).0)
          p.tables.rules
        ≡ o
      → Yields
          (λ q.
            IsTurn configuration rule_set t v p.tables.targets p.tables.rules p.found_target_pks
              q.tables.targets q.tables.rules q.found_target_pks)
          (upsert sorted configuration rule_set v (get_or_create_target t p.tables.targets) p o)
  unfolding upsert new_owned_rule
  upsert-IsTurn sorted keeps t v p keyed free (some r) e =
      let found = get_or_create_target t p.tables.targets in
      Yields-if
        (λ q.
          IsTurn configuration rule_set t v p.tables.targets p.tables.rules p.found_target_pks
            q.tables.targets q.tables.rules q.found_target_pks)
        (agrees v r) _ _
        (λ same.
          write-IsTurn t v p.tables.targets p.tables.rules p.tables.rules p.found_target_pks keyed
            (present-IsWrite configuration rule_set found.0 v p.tables.rules r e same))
        (λ other.
          write-IsTurn t v p.tables.targets p.tables.rules _ p.found_target_pks keyed
            (updated-IsWrite configuration rule_set found.0 v sorted keeps p.tables.rules r e))
  upsert-IsTurn sorted keeps t v p keyed free none e =
      let found = get_or_create_target t p.tables.targets in
      let r = new_owned_rule configuration rule_set found.0 v in
      let is_turn : IsTurn configuration rule_set t v p.tables.targets p.tables.rules
          p.found_target_pks found.1 (r ∷ p.tables.rules) (found.0 ∷ p.found_target_pks) =
        write-IsTurn t v p.tables.targets p.tables.rules (r ∷ p.tables.rules) p.found_target_pks
          keyed (created-IsWrite configuration rule_set found.0 v p.tables.rules) in
      Yields-bind-some
        (λ q.
          IsTurn configuration rule_set t v p.tables.targets p.tables.rules p.found_target_pks
            q.tables.targets q.tables.rules q.found_target_pks)
        (create_rule r found.1 p.tables) _ (with_rule r found.1 p.tables)
        (create_rule-free r found.1 p.tables
          (none_on_key t p.tables.targets p.tables.rules keyed free (find-none _ p.tables.rules e)))
        is_turn
