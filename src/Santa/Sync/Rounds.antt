-- ===== src/Santa/Sync/Rounds.antt =====
-- A whole rule download (zentral/contrib/santa/models.py and the comment in `RuleDownloadView` of
-- zentral/contrib/santa/views.py): the agent asks again, with the cursor of the last response, until
-- a response has none.
use zentral.Base.{
  Bool, Bool-cases, List, Option, String, [], and-left, any, any-map, any-select-false, any_mono,
  ap, arith, beq-eq_of, contains, false, if◌then◌else◌, inl, inr, is_empty, length,
  length-select-le, none, not, refl, select, some, suc, sym, take, true, truthy, zero, ℕ, ◌&&◌, ◌<◌,
  ◌==◌, ◌∙◌, ◌∷◌, ◌≡◌, ◌≤◌, ◌⊎◌, nat_eq, string_eq, option_eq,
}
use zentral.Santa.Rules.{EnrolledMachine}
use zentral.Santa.Changes.{MachineRule, Tables, NewRule, expanded_rules, iter_new_rules}
use zentral.Santa.Changes.Wanted.{wanted}
use zentral.Santa.Changes.Order.{at_target, news}
use zentral.Santa.Changes.Pending.{is_pending}
use zentral.Santa.Changes.Fits.{HasRulePolicies}
use zentral.Santa.Machines.{row_of, update_or_create, HasUniqueKeys}
use zentral.Santa.Sync.{
  Batch, sent_row, is_dropped, clear_cursor, acknowledge, cleanup, get_next_rule_batch,
}
use zentral.Santa.Sync.Settle.{settle}
use zentral.Santa.Sync.Send.{written}
use zentral.Santa.Sync.Batches.{batch_parts, get_next_rule_batch-total}
use zentral.Santa.Sync.Progress.{is_delivered, HasOneRuleEach, batch-HasUniqueKeys, batch_progress}
use zentral.Santa.Sync.Outcomes.{IsDone, empty_batch-IsDone}

-- The random cursors, one for each request: texts that do not repeat.
pub record AreCursors (fresh : ℕ → String) : Type 0 where
  pub nonempty : (k : ℕ) → (fresh k == "") ≡ false
  pub distinct_at : (j k : ℕ) → j < k → (fresh j == fresh k) ≡ false

unfoldable pub download :
    ℕ
    → Tables
    → EnrolledMachine
    → List ℕ
    → (ℕ → String)
    → ℕ
    → Option String
    → List MachineRule
    → Option (List MachineRule)
download zero db m tags fresh k cursor rows = none
download (suc f) db m tags fresh k cursor rows =
    elim (get_next_rule_batch db m tags cursor (fresh k) rows) [
      | none ↦ none
      | some b ↦ elim b.cursor [
        | none ↦ some b.rows
        | some c ↦ download f db m tags fresh (suc k) (some c) b.rows
      ]
    ]

-- The rows are fresh for all the cursors to come.
abbrev pub AreFresh : (ℕ → String) → ℕ → List MachineRule → Type 0
AreFresh fresh k rows = (j : ℕ) → k ≤ j → any (λ r. r.cursor == some (fresh j)) rows ≡ false

has_cursor-update_or_create :
    (c : String) (new : MachineRule) (rows : List MachineRule)
    → (new.cursor == some c) ≡ false
    → any (λ r. r.cursor == some c) rows ≡ false
    → any (λ r. r.cursor == some c) (update_or_create new rows) ≡ false
unfolding update_or_create
has_cursor-update_or_create c new [] h k = ground arith
has_cursor-update_or_create c new (r ∷ rows) h k =
    ground (arith, has_cursor-update_or_create c new rows)

has_cursor-written :
    (pk : ℕ) (c d : String) (rs : List NewRule) (rows : List MachineRule)
    → (d == c) ≡ false
    → any (λ r. r.cursor == some c) rows ≡ false
    → any (λ r. r.cursor == some c) (written pk d rs rows) ≡ false
unfolding sent_row
has_cursor-written pk c d [] rows h k = k
has_cursor-written pk c d (r ∷ rs) rows h k =
    has_cursor-written pk c d rs _ h (has_cursor-update_or_create c (sent_row pk d r) rows h k)

cleanup_keeps :
    (pk : ℕ) (c : String) (cursor : Option String) (rows : List MachineRule)
    → any (λ r. r.cursor == some c) rows ≡ false
    → any (λ r. r.cursor == some c) (cleanup pk cursor rows) ≡ false
unfolding cleanup
cleanup_keeps pk c cursor rows h =
    any-select-false (λ r. r.cursor == some c) (λ r. not (is_dropped pk cursor r)) rows h

has_cursor-clear_cursor :
    (pk : ℕ) (c : String) (cursor : Option String) (r : MachineRule)
    → (r.cursor == some c) ≡ false
    → ((clear_cursor pk cursor r).cursor == some c) ≡ false
unfolding clear_cursor
has_cursor-clear_cursor pk c cursor r h = ground arith

has_cursor-settle :
    (pk : ℕ) (c : String) (cursor : Option String) (rows : List MachineRule)
    → any (λ r. r.cursor == some c) rows ≡ false
    → any (λ r. r.cursor == some c) (settle pk cursor rows) ≡ false
unfolding settle acknowledge
has_cursor-settle pk c cursor rows h =
    let p = λ (r : MachineRule). r.cursor == some c in
    let kept = cleanup_keeps pk c cursor rows h in
    elim (Bool-cases (truthy cursor)) [
      | inl e ↦ rw e (
          any-map p (clear_cursor pk cursor) _
          ∙ any_mono (λ r. p (clear_cursor pk cursor r)) p (has_cursor-clear_cursor pk c cursor) _
              (any-select-false p _ (cleanup pk cursor rows) kept))
      | inr e ↦ rw e kept
    ]

-- How many of the targets `us` are out of sync.
unfoldable pub pending_count : (ℕ → Bool) → List ℕ → ℕ
pending_count p us = length (select p us)

pending_count-le :
    (p q : ℕ → Bool) (us : List ℕ)
    → ((t : ℕ) → p t ≡ true → q t ≡ true)
    → pending_count p us ≤ pending_count q us
unfolding pending_count
pending_count-le p q [] h = omega arith
pending_count-le p q (u ∷ us) h = ground (arith, h u, pending_count-le p q us h)

pending_count-lt :
    (p q : ℕ → Bool) (us : List ℕ) (t : ℕ)
    → ((t : ℕ) → p t ≡ true → q t ≡ true)
    → contains us t ≡ true
    → q t ≡ true
    → p t ≡ false
    → pending_count p us < pending_count q us
unfolding pending_count
pending_count-lt p q [] t h c qt pt = cc
pending_count-lt p q (u ∷ us) t h c qt pt = elim (Bool-cases (u == t)) [
  | inl e ↦
      ground (arith, ap p (beq-eq_of u t e), ap q (beq-eq_of u t e), pending_count-le p q us h)
  | inr e ↦ ground (arith, pending_count-lt p q us t h, h u)
]

pub pending_count-le-length : (p : ℕ → Bool) (us : List ℕ) → pending_count p us ≤ length us
unfolding pending_count
pending_count-le-length p us = length-select-le p us

pub any-take-true {ℓ} :
    {A : Type ℓ} (p : A → Bool) (n : ℕ) (xs : List A) → any p (take n xs) ≡ true → any p xs ≡ true
any-take-true p zero xs h = cc
any-take-true p (suc n) [] h = cc
any-take-true p (suc n) (x ∷ xs) h = ground (arith, any-take-true p n xs)

pub some_target :
    (sent : List NewRule) → (sent ≡ []) ⊎ ((t : ℕ) × (any (news (at_target t)) sent ≡ true))
some_target [] = inl refl
some_target (n ∷ ns) = inr (n.target_id, ground arith)

pub nil_of_length {ℓ} : {A : Type ℓ} (xs : List A) → length xs ≡ 0 → xs ≡ []
nil_of_length [] h = refl
nil_of_length (x ∷ xs) h = absurd (omega arith)

module _ (n : ℕ) (db : Tables) (m : EnrolledMachine) (tags : List ℕ) (fresh : ℕ → String) (k : ℕ)
    (cursor : Option String) (rows : List MachineRule) (b : Batch) where
  download_last :
      get_next_rule_batch db m tags cursor (fresh k) rows ≡ some b
      → b.cursor ≡ none
      → download (suc n) db m tags fresh k cursor rows ≡ some b.rows
  unfolding download
  download_last e h = ground arith

  pub download_more :
      (c : String)
      → get_next_rule_batch db m tags cursor (fresh k) rows ≡ some b
      → b.cursor ≡ some c
      → download (suc n) db m tags fresh k cursor rows
        ≡ download n db m tags fresh (suc k) (some c) b.rows
  unfolding download
  download_more c e h = ground arith

pub is_empty_of {ℓ} :
    {A : Type ℓ} (xs : List A) (sent : List NewRule) (t : ℕ)
    → length xs ≡ length sent
    → any (news (at_target t)) sent ≡ true
    → is_empty xs ≡ false
is_empty_of [] [] t h d = cc
is_empty_of [] (n ∷ ns) t h d = absurd (omega arith)
is_empty_of (x ∷ xs) ns t h d = refl

module _ (db : Tables) (m : EnrolledMachine) (tags : List ℕ) (fresh : ℕ → String)
    (ok : HasRulePolicies db.rules) (one : HasOneRuleEach (expanded_rules db m tags))
    (size : 0 < m.batch_size) (cursors : AreCursors fresh) (us : List ℕ) where
  unfoldable pub open_count : Option String → List MachineRule → ℕ
  open_count cursor rows = pending_count (is_pending db m tags (settle m.pk cursor rows)) us

  unfoldable pub Covers : Option String → List MachineRule → Type 0
  Covers cursor rows =
      (t : ℕ) → is_pending db m tags (settle m.pk cursor rows) t ≡ true → contains us t ≡ true

  unfoldable pub Ends : Option (List MachineRule) → Type 0
  Ends none = ⊥
  Ends (some rows) = (t : ℕ) → IsDone (wanted t (expanded_rules db m tags)) (row_of m.pk t rows)

  module _ (k : ℕ) (cursor : Option String) (rows : List MachineRule) (b : Batch)
      (e : get_next_rule_batch db m tags cursor (fresh k) rows ≡ some b) (u : HasUniqueKeys rows)
      (f : AreFresh fresh k rows) (c : Covers cursor rows) where
    progress :
        (t : ℕ)
        → is_pending db m tags (settle m.pk (some (fresh k)) b.rows) t ≡ (
            is_pending db m tags (settle m.pk cursor rows) t
            && not (is_delivered db m tags cursor rows t))
    progress =
        batch_progress db m tags cursor (fresh k) rows b e u (cursors.nonempty k, f k (omega arith))
          ok one

    was_pending :
        (t : ℕ)
        → is_pending db m tags (settle m.pk (some (fresh k)) b.rows) t ≡ true
        → is_pending db m tags (settle m.pk cursor rows) t ≡ true
    was_pending t h = and-left _ _ (sym (progress t) ∙ h)

    delivered_pending :
        (t : ℕ)
        → is_delivered db m tags cursor rows t ≡ true
        → is_pending db m tags (settle m.pk cursor rows) t ≡ true
    unfolding is_pending iter_new_rules
    delivered_pending t d = any-take-true (news (at_target t)) m.batch_size _ d

    -- A round that is not the last leaves fewer targets out of sync.
    open_count-batch :
        (t : ℕ)
        → is_delivered db m tags cursor rows t ≡ true
        → open_count (some (fresh k)) b.rows < open_count cursor rows
    unfolding open_count Covers
    open_count-batch t d =
        pending_count-lt _ _ us t was_pending (c t (delivered_pending t d)) (delivered_pending t d)
          (progress t
            ∙ ap (λ x. is_pending db m tags (settle m.pk cursor rows) t && not x) d
            ∙ ground arith)

    Covers-batch : Covers (some (fresh k)) b.rows
    unfolding Covers
    Covers-batch t h = c t (was_pending t h)

    AreFresh-batch : AreFresh fresh (suc k) b.rows
    AreFresh-batch j h = rw (batch_parts db m tags cursor (fresh k) rows b e).0 (
        has_cursor-written m.pk (fresh j) (fresh k)
          (iter_new_rules db m tags (settle m.pk cursor rows)) (settle m.pk cursor rows)
          (cursors.distinct_at k j h)
          (has_cursor-settle m.pk (fresh j) cursor rows (f j (omega arith))))

  pub download-Ends :
      (n k : ℕ) (cursor : Option String) (rows : List MachineRule)
      → HasUniqueKeys rows
      → AreFresh fresh k rows
      → Covers cursor rows
      → open_count cursor rows < n
      → Ends (download n db m tags fresh k cursor rows)
  unfolding Ends
  download-Ends zero k cursor rows u f c h = absurd (omega arith)
  download-Ends (suc n) k cursor rows u f c h =
      let (b, e) = get_next_rule_batch-total db m tags cursor (fresh k) rows ok in
      let sent = iter_new_rules db m tags (settle m.pk cursor rows) in
      let parts = batch_parts db m tags cursor (fresh k) rows b e in
      elim (some_target sent) [
        | inl nothing ↦
            let empty = nil_of_length b.rules (parts.1 ∙ ap length nothing) in
            let last : b.cursor ≡ none =
              parts.2 ∙ ap (λ l. if is_empty l then none else some (fresh k)) empty in
            rw (download_last n db m tags fresh k cursor rows b e last)
              (empty_batch-IsDone db m tags cursor (fresh k) rows b e ok u size empty)
        | inr (t, d) ↦
            let more : b.cursor ≡ some (fresh k) =
              parts.2 ∙ rw (is_empty_of b.rules sent t parts.1 d) in
            rw (download_more n db m tags fresh k cursor rows b (fresh k) e more) (
              download-Ends n (suc k) (some (fresh k)) b.rows
                (batch-HasUniqueKeys db m tags cursor (fresh k) rows b e u
                  (cursors.nonempty k, f k (omega arith)))
                (AreFresh-batch k cursor rows b e u f c) (Covers-batch k cursor rows b e u f c)
                (omega (arith, open_count-batch k cursor rows b e u f c t d)))
      ]
