-- ===== src/Santa/Enrollments/CleanSync.antt =====
-- When the preflight of zentral/contrib/santa/views.py asks for a clean sync.
use zentral.Base.{
  Bool, List, String, [], any, arith, false, inl, inr, not, refl, select, true, ℕ, ◌||◌, ◌∷◌, ◌≡◌,
  ◌⊎◌,
}
use zentral.Santa.Enrollments.Preflight.{
  PreflightAnswer, is_rule_of_machine, respond, respond_if, respond_to, preflight, get_or_enroll,
}
use zentral.Santa.Enrollments.{
  Client, PreflightData, SyncTables, Machine, Denied, get_enrolled_machine,
}

-- The machine has no rules in the database.
abbrev pub has_no_rules : PreflightAnswer → Bool
has_no_rules p = not (any (is_rule_of_machine p.machine.pk) p.tables.machine_rules)

any-select-not {ℓ} :
    {A : Type ℓ} (p : A → Bool) (xs : List A) → any p (select (λ x. not (p x)) xs) ≡ false
any-select-not p [] = refl
any-select-not p (x ∷ xs) = ground (arith, any-select-not p xs)

abbrev pub Answers : PreflightData → Denied ⊎ PreflightAnswer → Type 0
Answers d (inl denied) = Unit
Answers d (inr p) =
    (p.clean_sync ≡ has_no_rules p) × ((not d.request_clean_sync || p.clean_sync) ≡ true)

pub respond-Answers :
    (d : PreflightData) (m : Machine) (tables : SyncTables) → Answers d (inr (respond d m tables))
unfolding respond
respond-Answers d m tables = go d.request_clean_sync
  where
    go :
        (b : Bool)
        → ((respond_if b m tables).clean_sync ≡ has_no_rules (respond_if b m tables))
          × ((not b || (respond_if b m tables).clean_sync) ≡ true)
    go true = (rw (any-select-not (is_rule_of_machine m.pk) tables.machine_rules) refl, refl)
    go false = (refl, refl)

-- An agent that passes the preflight is told to make a clean sync exactly if the database has no rules
-- of its machine left then, and always if it asks for one.
pub preflight-Answers :
    (strip : String → String) (now : ℕ) (c : Client) (d : PreflightData) (tables : SyncTables)
    → Answers d (preflight strip now c d tables)
unfolding preflight
preflight-Answers strip now c d tables =
    go (get_or_enroll strip now c d tables (get_enrolled_machine tables c))
  where
    go : (o : Denied ⊎ (Machine × SyncTables)) → Answers d (respond_to d o)
    go (inl denied) = tt
    go (inr found) = respond-Answers d found.0 found.1
