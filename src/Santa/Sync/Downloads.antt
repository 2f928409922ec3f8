-- ===== src/Santa/Sync/Downloads.antt =====
-- A whole rule download (zentral/contrib/santa/models.py) ends, and leaves the machine with what its
-- rules ask for.
use zentral.Base.{
  List, Option, String, [], any, any-map, ap, arith, false, length, map, none, refl, some, suc,
  true, ℕ, ◌<◌, ◌==◌, ◌∙◌, ◌∷◌, ◌≡◌, nat_eq, string_eq, option_eq,
}
use zentral.Santa.Rules.{EnrolledMachine}
use zentral.Santa.Changes.{MachineRule, Tables, NewRule, expanded_rules, pending_rules}
use zentral.Santa.Changes.Wanted.{wanted}
use zentral.Santa.Changes.Order.{at_target, news}
use zentral.Santa.Changes.Pending.{is_pending}
use zentral.Santa.Changes.Fits.{HasRulePolicies}
use zentral.Santa.Machines.{row_of, HasUniqueKeys}
use zentral.Santa.Sync.Settle.{settle}
use zentral.Santa.Sync.Progress.{HasOneRuleEach}
use zentral.Santa.Sync.Outcomes.{IsDone}
use zentral.Santa.Sync.Rounds.{
  AreCursors, download, open_count, Covers, Ends, download-Ends, pending_count-le-length,
}

abbrev targets_of : List NewRule → List ℕ
targets_of ns = map (λ n. n.target_id) ns

length-targets_of : (ns : List NewRule) → length (targets_of ns) ≡ length ns
length-targets_of [] = refl
length-targets_of (n ∷ ns) = ap suc (length-targets_of ns)

module _ (db : Tables) (m : EnrolledMachine) (tags : List ℕ) (fresh : ℕ → String)
    (ok : HasRulePolicies db.rules) (one : HasOneRuleEach (expanded_rules db m tags))
    (size : 0 < m.batch_size) (cursors : AreCursors fresh) where
  ends :
      (cursor : Option String) (rows : List MachineRule) (us : List ℕ)
      (o : Option (List MachineRule))
      → Ends db m tags fresh ok one size cursors us o
      → (rows' : List MachineRule) × (o ≡ some rows')
        × ((t : ℕ) → IsDone (wanted t (expanded_rules db m tags)) (row_of m.pk t rows'))
  unfolding Ends
  ends cursor rows us none h = absurd h
  ends cursor rows us (some rows') h = (rows', refl, h)

  -- With stored rules of known policies, one row at most for a machine and a target, batches that
  -- are not empty, cursors that are neither empty nor repeated nor in the table, and no target
  -- that two expanded rules ask for, a download ends after at most one request more than there are
  -- rules to send. It leaves every target acknowledged with the policy and the version of its
  -- rule, and no row without a rule.
  pub download_complete :
      (cursor : Option String) (rows : List MachineRule)
      → HasUniqueKeys rows
      → ((j : ℕ) → any (λ r. r.cursor == some (fresh j)) rows ≡ false)
      → let fuel = suc (length (pending_rules db m tags (settle m.pk cursor rows))) in
        (rows' : List MachineRule) × (download fuel db m tags fresh 0 cursor rows ≡ some rows')
        × ((t : ℕ) → IsDone (wanted t (expanded_rules db m tags)) (row_of m.pk t rows'))
  unfolding Covers open_count is_pending
  download_complete cursor rows u f =
      let pending = pending_rules db m tags (settle m.pk cursor rows) in
      let us = targets_of pending in
      let covers = λ (t : ℕ) (h : any (news (at_target t)) pending ≡ true).
        any-map (λ u. u == t) (λ (n : NewRule). n.target_id) pending ∙ h in
      ends cursor rows us _ (
        download-Ends db m tags fresh ok one size cursors us (suc (length pending)) 0 cursor rows u
          (λ j h. f j) covers
          (omega (
            arith,
            pending_count-le-length (is_pending db m tags (settle m.pk cursor rows)) us,
            length-targets_of pending,
          )))
