-- ===== src/Santa/Sync/Send.antt =====
-- The loop of `get_next_rule_batch` (zentral/contrib/santa/models.py) that writes down what it sends.
use zentral.Base.{
  Bool, List, Option, String, [], any, arith, false, if◌then◌else◌, inl, inr, length, none, not,
  refl, some, subst, true, ℕ, ◌&&◌, ◌==◌, ◌∙◌, ◌∷◌, ◌≡◌, ◌⊎◌, nat_eq, string_eq, option_eq,
}
use zentral.Santa.Policy.{Translated, word, value_error, translate_rule_policy, is_known}
use zentral.Santa.Changes.{MachineRule, NewRule}
use zentral.Santa.Changes.Order.{at_target, news}
use zentral.Santa.Machines.{has_key, row_of, update_or_create, HasUniqueKeys}
use zentral.Santa.Machines.Laws.{row_of-update_or_create, update_or_create-HasUniqueKeys}
use zentral.Santa.Sync.{RuleInfo, send_all, sent_row, rule_info}

word_of : Translated → String
word_of (word w) = w
word_of (value_error p) = ""

translate_known :
    (p : ℕ) → is_known p ≡ true → translate_rule_policy p ≡ word (word_of (translate_rule_policy p))
unfolding translate_rule_policy word_of
translate_known p h = ground arith

send_all-step :
    (pk : ℕ) (cursor : String) (r : NewRule) (rs : List NewRule) (rows : List MachineRule)
    (w : String) (out : List MachineRule × List RuleInfo)
    → translate_rule_policy r.policy ≡ word w
    → send_all pk cursor rs (update_or_create (sent_row pk cursor r) rows) ≡ some out
    → send_all pk cursor (r ∷ rs) rows ≡ some (out.0, rule_info r w ∷ out.1)
unfolding send_all
send_all-step pk cursor r rs rows w out e f = ground arith

-- With known policies the loop runs to its end.
pub send_all-total :
    (pk : ℕ) (cursor : String) (rs : List NewRule) (rows : List MachineRule)
    → any (λ n. not (is_known n.policy)) rs ≡ false
    → (out : List MachineRule × List RuleInfo) × (send_all pk cursor rs rows ≡ some out)
unfolding send_all
send_all-total pk cursor [] rows h = ((rows, []), refl)
send_all-total pk cursor (r ∷ rs) rows h =
    let e = translate_known r.policy (ground arith) in
    let (out, f) =
      send_all-total pk cursor rs (update_or_create (sent_row pk cursor r) rows) (ground arith) in
    (
      (out.0, rule_info r (word_of (translate_rule_policy r.policy)) ∷ out.1),
      send_all-step pk cursor r rs rows _ out e f,
    )

-- The rows that the loop leaves, without the response.
abbrev pub written : ℕ → String → List NewRule → List MachineRule → List MachineRule
written pk cursor [] rows = rows
written pk cursor (r ∷ rs) rows =
    written pk cursor rs (update_or_create (sent_row pk cursor r) rows)

abbrev IsWritten :
    ℕ
    → String
    → List NewRule
    → List MachineRule
    → Option (List MachineRule × List RuleInfo)
    → Type 0
IsWritten pk cursor rs rows none = Unit
IsWritten pk cursor rs rows (some (rows', infos)) =
    (rows' ≡ written pk cursor rs rows) × (length infos ≡ length rs)

is_written :
    (pk : ℕ) (cursor : String) (rs : List NewRule) (rows : List MachineRule)
    → IsWritten pk cursor rs rows (send_all pk cursor rs rows)
unfolding send_all
is_written pk cursor [] rows = (refl, refl)
is_written pk cursor (r ∷ rs) rows =
    ground (arith, is_written pk cursor rs (update_or_create (sent_row pk cursor r) rows))

pub send_all-written :
    (pk : ℕ) (cursor : String) (rs : List NewRule) (rows : List MachineRule)
    (out : List MachineRule × List RuleInfo)
    → send_all pk cursor rs rows ≡ some out
    → (out.0 ≡ written pk cursor rs rows) × (length out.1 ≡ length rs)
send_all-written pk cursor rs rows out h =
    subst (IsWritten pk cursor rs rows) h (is_written pk cursor rs rows)

pub written-HasUniqueKeys :
    (pk : ℕ) (cursor : String) (rs : List NewRule) (rows : List MachineRule)
    → HasUniqueKeys rows
    → HasUniqueKeys (written pk cursor rs rows)
written-HasUniqueKeys pk cursor [] rows h = h
written-HasUniqueKeys pk cursor (r ∷ rs) rows h =
    written-HasUniqueKeys pk cursor rs _
      (update_or_create-HasUniqueKeys (sent_row pk cursor r) rows h)

not_sent :
    (pk k t : ℕ) (cursor : String) (r : NewRule) (rows : List MachineRule)
    → ((pk == k) && (r.target_id == t)) ≡ false
    → (if has_key k t (sent_row pk cursor r) then some (sent_row pk cursor r) else row_of k t rows)
      ≡ row_of k t rows
unfolding sent_row
not_sent pk k t cursor r rows h = rw h

-- A target that is not sent keeps its row, and so do the rows of other machines.
pub row_of-written_other :
    (pk k t : ℕ) (cursor : String) (rs : List NewRule) (rows : List MachineRule)
    → ((pk == k) && any (news (at_target t)) rs) ≡ false
    → row_of k t (written pk cursor rs rows) ≡ row_of k t rows
row_of-written_other pk k t cursor [] rows h = refl
row_of-written_other pk k t cursor (r ∷ rs) rows h =
    row_of-written_other pk k t cursor rs _ (ground arith)
    ∙ row_of-update_or_create k t (sent_row pk cursor r) rows
    ∙ not_sent pk k t cursor r rows (ground arith)

-- A target that is sent has a row of the batch: its cursor, and what one of the rules sent says.
abbrev pub IsSent : ℕ → String → (ℕ → ℕ → Bool) → Option MachineRule → Type 0
IsSent pk cursor ok none = ⊥
IsSent pk cursor ok (some r) =
    (r.enrolled_machine ≡ pk) × (r.cursor ≡ some cursor) × (ok r.policy r.version ≡ true)

IsSent-step :
    (pk t : ℕ) (cursor : String) (ok : ℕ → ℕ → Bool) (r : NewRule) (rs : List NewRule)
    (rows : List MachineRule)
    → ((r.target_id == t) && not (ok r.policy r.version)) ≡ false
    → (any (news (at_target t)) (r ∷ rs) ≡ true) ⊎ IsSent pk cursor ok (row_of pk t rows)
    → (any (news (at_target t)) rs ≡ true)
      ⊎ IsSent pk cursor ok (row_of pk t (update_or_create (sent_row pk cursor r) rows))
unfolding sent_row
IsSent-step pk t cursor ok r rs rows h s = rw row_of-update_or_create (ground (arith))

pub row_of-written :
    (pk t : ℕ) (cursor : String) (ok : ℕ → ℕ → Bool) (rs : List NewRule) (rows : List MachineRule)
    → any (news (λ a p v. (a == t) && not (ok p v))) rs ≡ false
    → (any (news (at_target t)) rs ≡ true) ⊎ IsSent pk cursor ok (row_of pk t rows)
    → IsSent pk cursor ok (row_of pk t (written pk cursor rs rows))
row_of-written pk t cursor ok [] rows h (inl e) = absurd (cc)
row_of-written pk t cursor ok [] rows h (inr s) = s
row_of-written pk t cursor ok (r ∷ rs) rows h s =
    row_of-written pk t cursor ok rs _ (ground arith)
      (IsSent-step pk t cursor ok r rs rows (ground arith) s)
