-- ===== src/Santa/Targets.antt =====
-- The table of `Target` in zentral/contrib/santa/models.py.
pub mod Keys
use zentral.Base.{
  Bool, Equality, List, Option, any, arith, find, none, some, suc, true, ℕ, ◌&&◌, ◌==◌, ◌↔◌, ◌∷◌,
  ◌≡◌, nat_eq, string_eq, option_eq,
}
use zentral.Santa.Rules.{Target, TargetType, target_type_eq}

abbrev pub target_beq : Target → Target → Bool
target_beq t u = (t.type == u.type) && (t.sha256 == u.sha256)

pub target_beq_iff : (t u : Target) → (target_beq t u ≡ true) ↔ (t ≡ u)
target_beq_iff t u = ground (arith, target_type_eq.test_iff t.type u.type)

instance abbrev pub target_eq : Equality Target
target_eq = record { test = target_beq; test_iff = target_beq_iff }

pub record TargetRow : Type 0 where
  pub pk : ℕ
  pub target : Target

pub record TargetTable : Type 0 where
  pub rows : List TargetRow
  pub next_pk : ℕ

-- Has the row with this key this target? (a join on the foreign key)
unfoldable pub is_target : TargetTable → Target → ℕ → Bool
is_target table t pk = any (λ r. (r.pk == pk) && (r.target == t)) table.rows

abbrev pub pk_in : Option TargetRow → Option ℕ
pk_in none = none
pk_in (some r) = some r.pk

unfoldable pub pk_of : Target → TargetTable → Option ℕ
pk_of t table = pk_in (find (λ r. r.target == t) table.rows)

unfoldable pub unless_found : Target → TargetTable → Option ℕ → ℕ × TargetTable
unless_found t table (some pk) = (pk, table)
unless_found t table none = (
  table.next_pk,
  record {
    rows = record { pk = table.next_pk; target = t } ∷ table.rows;
    next_pk = suc table.next_pk;
  },
)

-- `Target.objects.get_or_create(type=…, sha256=…)`
unfoldable pub get_or_create_target : Target → TargetTable → ℕ × TargetTable
unfolding unless_found
get_or_create_target t table = unless_found t table (pk_of t table)
