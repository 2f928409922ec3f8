-- ===== src/Santa/LogExamples.antt =====
-- "[now] I santad: pid=12|args=ls -l"
use zentral.Base.Tests.{list_eq}
use zentral.Base.{List, Option, [], if◌then◌else◌, leb, none, refl, some, ◌&&◌, ◌∷◌, ◌≡◌}
use zentral.Santa.Logs.{
  Text, codes, LogValue, parse_santa_log_message, get, with_integer, with_words,
}
use zentral.Santa.Logs.Messages.{message, parse-message}

abbrev any_date : Text → Option Text
any_date s = some s

-- a text is an integer if it begins with a digit
abbrev digits : Text → Option Text
digits [] = none
digits (c ∷ s) = if leb b'0' c && leb c b'9' then some (c ∷ s) else none

abbrev one_word : Text → List Text
one_word s = s ∷ []

parse-message_example :
    parse_santa_log_message any_date digits one_word (
      message
        (codes "now")
        (codes " I santad")
        ((codes "pid", codes "12") ∷ (codes "args", codes "ls -l") ∷ []))
    ≡ some (
        (codes "timestamp", LogValue.date (codes "now"))
        ∷ (codes "pid", LogValue.integer (codes "12"))
        ∷ (codes "args", LogValue.words (codes "ls -l" ∷ []))
        ∷ [])
unfolding with_words get with_integer
parse-message_example =
    parse-message any_date digits one_word (codes "now") (codes " I santad") (codes "now")
      ((codes "pid", codes "12") ∷ (codes "args", codes "ls -l") ∷ []) refl refl refl refl refl
