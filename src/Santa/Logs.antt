-- ===== src/Santa/Logs.antt =====
-- `parse_santa_log_message` of zentral/contrib/santa/utils.py. A text is the list of its characters'
-- numbers. The parser of dates, `int` and `str.split` are arguments; a date and an integer are
-- texts too.
pub mod Reading
pub mod Messages
use Prim.Native.Char.{code}
use zentral.Base.Tests.{list_eq}
use zentral.Base.{
  Bool, List, Option, String, [], false, if◌then◌else◌, is_empty, map, none, not, some, true, ℕ,
  ◌&&◌, ◌++◌, ◌==◌, ◌>>=◌, ◌||◌, ◌∷◌, nat_eq, string_eq, option_eq, bool_eq,
}

abbrev pub Text : Type 0
Text = List ℕ

abbrev pub codes : String → Text
codes String.[] = []
codes (String.◌∷◌ c s) = code c ∷ codes s

pub data LogValue : Type 0 where
  text : Text → LogValue
  date : Text → LogValue
  integer : Text → LogValue
  words : List Text → LogValue

abbrev pub Attributes : Type 0
Attributes = List (Text × LogValue)

-- `None`, "ATTR" and "VAL"
pub data State : Type 0 where
  outside attr val : State

pub record Parser : Type 0 where
  pub d : Attributes
  pub current_attr : Text
  pub current_val : Text
  pub state : State

-- `d[attr] = value`
unfoldable pub set : Text → LogValue → Attributes → Attributes
set k v [] = (k, v) ∷ []
set k v ((j, w) ∷ d) = let rest = set k v d in if j == k then (k, v) ∷ d else (j, w) ∷ rest

unfoldable pub get : Text → Attributes → Option LogValue
get k [] = none
get k ((j, w) ∷ d) = if j == k then some w else get k d

-- Python's truth of a value that may be missing
unfoldable pub is_true : Option LogValue → Bool
is_true none = false
is_true (some (text s)) = not (is_empty s)
is_true (some (words l)) = not (is_empty l)
is_true (some (integer s)) = not (s == codes "0")
is_true (some (date s)) = true

-- a value that has ended, as it is stored
unfoldable pub ended : (Text → Option Text) → Text → Text → Option LogValue
ended parse_date name value =
    if name == codes "timestamp"
    then (parse_date value >>= λ t. some (date t))
    else some (text value)

unfoldable pub store : (Text → Option Text) → State → Parser → Option Parser
unfolding ended set
store parse_date next p = ended parse_date p.current_attr p.current_val >>= λ v.
    some
      (record { d = set p.current_attr v p.d; current_attr = []; current_val = []; state = next })

unfoldable pub step_outside : ℕ → Parser → Parser
unfolding is_true get
step_outside c p =
    if c == b'['
    then record p { current_attr = codes "timestamp"; state = val }
    else if is_true (get (codes "timestamp") p.d) && (c == b':')
    then record p { state = attr; current_attr = [] }
    else p

unfoldable pub step_attr : ℕ → Parser → Parser
step_attr c p =
    if c == b'='
    then record p { state = val }
    else if not (is_empty p.current_attr) || not (c == b' ')
    then record p { current_attr = p.current_attr ++ (c ∷ []) }
    else p

unfoldable pub step_val : (Text → Option Text) → ℕ → Parser → Option Parser
unfolding store
step_val parse_date c p =
    if c == b'|'
    then store parse_date attr p
    else if (p.current_attr == codes "timestamp") && (c == b']')
    then store parse_date outside p
    else some (record p { current_val = p.current_val ++ (c ∷ []) })

unfoldable pub step_in : (Text → Option Text) → State → ℕ → Parser → Option Parser
unfolding step_outside step_attr step_val
step_in parse_date outside c p = some (step_outside c p)
step_in parse_date attr c p = some (step_attr c p)
step_in parse_date val c p = step_val parse_date c p

-- the loop on the characters
unfoldable pub run : (Text → Option Text) → Text → Parser → Option Parser
unfolding step_in
run parse_date [] p = some p
run parse_date (c ∷ message) p = step_in parse_date p.state c p >>= λ q. run parse_date message q

-- `if current_attr and current_val`
unfoldable pub last_stored : Parser → Attributes
unfolding set
last_stored p =
    if not (is_empty p.current_attr) && not (is_empty p.current_val)
    then set p.current_attr (text p.current_val) p.d
    else p.d

unfoldable pub ends_with_id : Text → Bool
ends_with_id [] = false
ends_with_id (c ∷ cs) = let rest = ends_with_id cs in ((c ∷ cs) == codes "id") || rest

-- the value of an attribute whose name ends with "id", where it is the text of an integer
unfoldable pub with_integer : (Text → Option Text) → Text × LogValue → Text × LogValue
unfolding ends_with_id
with_integer to_int (k, text s) =
    if ends_with_id k
    then elim (to_int s) [ some i ↦ (k, integer i) | none ↦ (k, text s) ]
    else (k, text s)
with_integer to_int (k, v) = (k, v)

-- The words of "args"; only a text has the method.
unfoldable pub with_words : (Text → List Text) → Option LogValue → Attributes → Attributes
unfolding set
with_words split (some (text (c ∷ s))) d = set (codes "args") (words (split (c ∷ s))) d
with_words split _ d = d

-- what is done after the loop; there is no result without a timestamp
unfoldable pub finish : (Text → Option Text) → (Text → List Text) → Attributes → Option Attributes
unfolding get with_integer with_words
finish to_int split d =
    let numbered = map (with_integer to_int) d in
    get (codes "timestamp") numbered >>= λ t.
    some (with_words split (get (codes "args") numbered) numbered)

abbrev pub initial : Parser
initial = record { d = []; current_attr = []; current_val = []; state = outside }

unfoldable pub parse_santa_log_message :
    (Text → Option Text) → (Text → Option Text) → (Text → List Text) → Text → Option Attributes
unfolding run last_stored finish
parse_santa_log_message parse_date to_int split message =
    run parse_date message initial >>= λ p. finish to_int split (last_stored p)
