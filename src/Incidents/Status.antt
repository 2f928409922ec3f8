-- ===== src/Incidents/Status.antt =====
-- The statuses of zentral/core/incidents/models.py, and which of them may follow which.
use zentral.Base.{Bool, List, [], any, false, true, ◌∷◌}

-- `opened` is STATUS_OPEN.
pub data Status : Type 0 where
  opened in_progress resolved closed reopened : Status

-- Membership of OPEN_STATUSES.
unfoldable pub is_open : Status → Bool
is_open opened = true
is_open in_progress = true
is_open reopened = true
is_open resolved = false
is_open closed = false

unfoldable pub status_beq : Status → Status → Bool
status_beq opened opened = true
status_beq in_progress in_progress = true
status_beq resolved resolved = true
status_beq closed closed = true
status_beq reopened reopened = true
status_beq _ _ = false

-- `get_next_statuses(current_status)`
unfoldable pub get_next_statuses : Status → List Status
get_next_statuses opened = in_progress ∷ closed ∷ resolved ∷ []
get_next_statuses reopened = in_progress ∷ closed ∷ resolved ∷ []
get_next_statuses in_progress = closed ∷ resolved ∷ []
get_next_statuses closed = reopened ∷ []
get_next_statuses resolved = reopened ∷ []

unfoldable pub has_status : Status → List Status → Bool
unfolding status_beq
has_status s l = any (status_beq s) l
