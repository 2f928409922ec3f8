-- ===== src/Santa/Sync/Conflicts.antt =====
-- Two rules in scope that ask for one target, such as a rule on a binary and a rule on a bundle that
-- has the binary (zentral/contrib/santa/models.py: only the pair of configuration and target of a
-- rule is unique, and bundle rules are expanded to the bundle's binaries).
use zentral.Base.{
  Bool-cases, List, Option, String, [], any, ap, arith, false, if◌then◌else◌, inl, inr, is_empty,
  length, none, refl, some, suc, take, true, zero, ℕ, ◌&&◌, ◌<◌, ◌==◌, ◌∙◌, ◌∷◌, ◌≡◌, nat_eq,
  string_eq, option_eq,
}
use zentral.Santa.Rules.{EnrolledMachine}
use zentral.Santa.Changes.{
  MachineRule, Tables, ExpandedRule, NewRule, expanded_rules, pending_rules, iter_new_rules,
}
use zentral.Santa.Changes.Wanted.{wanted, out_of_sync, stale_for}
use zentral.Santa.Changes.Order.{at_target, news}
use zentral.Santa.Changes.Pending.{is_pending, is_pending_lem}
use zentral.Santa.Machines.{row_of, HasUniqueKeys}
use zentral.Santa.Sync.{Batch, get_next_rule_batch}
use zentral.Santa.Sync.Settle.{settle, settle-HasUniqueKeys}
use zentral.Santa.Sync.Send.{written-HasUniqueKeys}
use zentral.Santa.Sync.Batches.{batch_parts}
use zentral.Santa.Sync.Rounds.{download, download_more}

-- Some rule of the list asks for this policy and version.
abbrev pub IsAsked : ℕ → ℕ → List ExpandedRule → Type 0
IsAsked p v ws = any (λ w. (w.policy == p) && (w.version == v)) ws ≡ true

stale-any :
    (p v : ℕ) (r : MachineRule) (ws : List ExpandedRule)
    → IsAsked p v ws
    → ((r.policy == p) && (r.version == v)) ≡ false
    → any (stale_for (some r)) ws ≡ true
unfolding stale_for
stale-any p v r [] h n = cc
stale-any p v r (w ∷ ws) h n = ground (arith, stale-any p v r ws)

conflict_stale :
    (p v p' v' : ℕ) (ws : List ExpandedRule) (row : Option MachineRule)
    → IsAsked p v ws
    → IsAsked p' v' ws
    → ((p == p') && (v == v')) ≡ false
    → out_of_sync ws row ≡ true
unfolding out_of_sync stale_for
conflict_stale p v p' v' [] row h h' n = cc
conflict_stale p v p' v' (w ∷ ws) none h h' n = refl
conflict_stale p v p' v' (w ∷ ws) (some r) h h' n =
    elim (Bool-cases ((r.policy == p) && (r.version == v))) [
      | inl e ↦ stale-any p' v' r (w ∷ ws) h' (ground arith)
      | inr e ↦ stale-any p v r (w ∷ ws) h e
    ]

take-nonempty :
    (n : ℕ) (xs : List NewRule) (t : ℕ)
    → 0 < n
    → any (news (at_target t)) xs ≡ true
    → is_empty (take n xs) ≡ false
take-nonempty n [] t h k = cc
take-nonempty zero (x ∷ xs) t h k = absurd (omega arith)
take-nonempty (suc n) (x ∷ xs) t h k = refl

length-is_empty {ℓ κ} :
    {A : Type ℓ} {B : Type κ} (xs : List A) (ys : List B)
    → length xs ≡ length ys
    → is_empty ys ≡ false
    → is_empty xs ≡ false
length-is_empty xs [] h e = cc
length-is_empty [] (y ∷ ys) h e = absurd (omega arith)
length-is_empty (x ∷ xs) (y ∷ ys) h e = refl

download-none :
    (n : ℕ) (db : Tables) (m : EnrolledMachine) (tags : List ℕ) (fresh : ℕ → String) (k : ℕ)
    (cursor : Option String) (rows : List MachineRule)
    → get_next_rule_batch db m tags cursor (fresh k) rows ≡ none
    → download (suc n) db m tags fresh k cursor rows ≡ none
unfolding download
download-none n db m tags fresh k cursor rows e = ground arith

module _ (db : Tables) (m : EnrolledMachine) (tags : List ℕ) (t p v p' v' : ℕ)
    (asked : IsAsked p v (wanted t (expanded_rules db m tags)))
    (asked' : IsAsked p' v' (wanted t (expanded_rules db m tags)))
    (differ : ((p == p') && (v == v')) ≡ false) where
  -- Whatever the machine has, such a target is out of sync.
  conflict_pending :
      (rows : List MachineRule) → HasUniqueKeys rows → is_pending db m tags rows t ≡ true
  conflict_pending rows u =
      is_pending_lem db m tags rows t u
      ∙ conflict_stale p v p' v' _ (row_of m.pk t rows) asked asked' differ

  target_sent :
      0 < m.batch_size
      → (cursor : Option String) (rows : List MachineRule) → HasUniqueKeys rows
      → is_empty (iter_new_rules db m tags (settle m.pk cursor rows)) ≡ false
  unfolding iter_new_rules is_pending
  target_sent size cursor rows u =
      take-nonempty m.batch_size (pending_rules db m tags (settle m.pk cursor rows)) t size
        (conflict_pending (settle m.pk cursor rows) (settle-HasUniqueKeys m.pk cursor rows u))

  -- If two expanded rules in scope of a machine ask for different policies or versions of one
  -- target, no number of requests completes its download, whatever the cursors are, where batches
  -- are not empty and the table has one row at most for a machine and a target.
  pub conflict_never_ends :
      0 < m.batch_size
      → (n : ℕ) (fresh : ℕ → String) (k : ℕ) (cursor : Option String) (rows : List MachineRule)
      → HasUniqueKeys rows
      → download n db m tags fresh k cursor rows ≡ none
  unfolding download
  conflict_never_ends size zero fresh k cursor rows u = refl
  conflict_never_ends size (suc n) fresh k cursor rows u =
      go (get_next_rule_batch db m tags cursor (fresh k) rows) refl
        (λ b v. conflict_never_ends size n fresh (suc k) (some (fresh k)) b v)
    where
      go :
          (o : Option Batch)
          → get_next_rule_batch db m tags cursor (fresh k) rows ≡ o
          → ((l : List MachineRule)
              → HasUniqueKeys l
              → download n db m tags fresh (suc k) (some (fresh k)) l ≡ none)
          → download (suc n) db m tags fresh k cursor rows ≡ none
      go none e next = download-none n db m tags fresh k cursor rows e
      go (some b) e next =
          let parts = batch_parts db m tags cursor (fresh k) rows b e in
          let sent = iter_new_rules db m tags (settle m.pk cursor rows) in
          let busy = length-is_empty b.rules sent parts.1 (target_sent size cursor rows u) in
          let more : b.cursor ≡ some (fresh k) =
            parts.2 ∙ ap (λ c. if c then none else some (fresh k)) busy in
          let unique : HasUniqueKeys b.rows = rw parts.0 (
            written-HasUniqueKeys m.pk (fresh k) sent _
              (settle-HasUniqueKeys m.pk cursor rows u)) in
          download_more n db m tags fresh k cursor rows b (fresh k) e more ∙ next b.rows unique
