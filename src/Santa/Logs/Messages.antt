-- ===== src/Santa/Logs/Messages.antt =====
-- A whole log message of the agent, with a timestamp, a head and attributes.
use zentral.Base.Tests.{list_eq}
use zentral.Base.{
  Bool, List, Option, [], all, and-left, and-right, ap, arith, false, if◌then◌else◌, is_empty, map,
  none, not, refl, some, true, ◌&&◌, ◌++◌, ◌==◌, ◌>>=◌, ◌∙◌, ◌∷◌, ◌≡◌, nat_eq, string_eq, option_eq,
  bool_eq,
}
use zentral.Santa.Logs.{
  Text, codes, LogValue, Attributes, State, Parser, set, get, is_true, ended, store, step_outside,
  step_attr, step_val, step_in, run, last_stored, finish, initial, parse_santa_log_message,
  with_integer, with_words,
}
use zentral.Santa.Logs.Reading.{
  lacks, printed, is_readable, starts_with_space, run-append, run-val, run-attr, run-outside,
}

-- the attributes as they are stored; a later one replaces an earlier one of the same name
abbrev pub set_all : List (Text × Text) → Attributes → Attributes
set_all [] d = d
set_all ((k, v) ∷ rest) d = set_all rest (set k (LogValue.text v) d)

abbrev pub ends_with_value : List (Text × Text) → Bool
ends_with_value [] = true
ends_with_value ((k, v) ∷ []) = not (is_empty v)
ends_with_value (kv ∷ rest) = ends_with_value rest

-- "[timestamp] head: name=value|name=value"
abbrev pub message : Text → Text → List (Text × Text) → Text
message timestamp head attributes =
    b'[' ∷ (timestamp ++ (b']' ∷ (head ++ (b':' ∷ (b' ' ∷ printed attributes)))))

abbrev parser : Attributes → Text → Text → State → Parser
parser d name value state = record {
  d = d;
  current_attr = name;
  current_val = value;
  state = state;
}

-- integers and words in the place of texts
abbrev pub read_back : (Text → Option Text) → (Text → List Text) → Attributes → Attributes
read_back to_int split d =
    let numbered = map (with_integer to_int) d in
    with_words split (get (codes "args") numbered) numbered

module _ (parse_date : Text → Option Text) where
  read_name :
      (d : Attributes) (k v rest : Text)
      → is_readable (k, v) ≡ true
      → run parse_date (k ++ (b'=' ∷ rest)) (parser d [] [] State.attr)
        ≡ run parse_date rest (parser d k [] State.val)
  unfolding run step_in step_attr
  read_name d k v rest h =
      run-append parse_date k (b'=' ∷ rest) (parser d [] [] State.attr)
      ∙ ap (λ m. m >>= run parse_date (b'=' ∷ rest)) (run-attr parse_date d [] k space equals)
    where
      space : starts_with_space k ≡ false
      space = ground arith

      equals : lacks b'=' k ≡ true
      equals = ground arith

  -- a value, and the bar behind it
  read_value :
      (d : Attributes) (k v rest : Text)
      → is_readable (k, v) ≡ true
      → run parse_date (v ++ (b'|' ∷ rest)) (parser d k [] State.val)
        ≡ run parse_date rest (parser (set k (LogValue.text v) d) [] [] State.attr)
  unfolding run step_in step_val store ended
  read_value d k v rest h =
      run-append parse_date v (b'|' ∷ rest) (parser d k [] State.val)
      ∙ ap (λ m. m >>= run parse_date (b'|' ∷ rest)) (run-val parse_date d k [] v bar bracket)
      ∙ rw (other) refl
    where
      bar : lacks b'|' v ≡ true
      bar = ground arith

      other : (k == codes "timestamp") ≡ false
      other = ground arith

      bracket : ((k == codes "timestamp") && not (lacks b']' v)) ≡ false
      bracket = ap (λ b. b && not (lacks b']' v)) other

  -- the last value has nothing behind it
  read_last :
      (d : Attributes) (k v : Text)
      → is_readable (k, v) ≡ true
      → not (is_empty v) ≡ true
      → (run parse_date v (parser d k [] State.val) >>= λ p. some (last_stored p))
        ≡ some (set k (LogValue.text v) d)
  unfolding last_stored
  read_last d k v h e =
      ap (λ m. m >>= λ p. some (last_stored p)) (run-val parse_date d k [] v bar bracket)
      ∙ ap (λ b. some (if b then set k (LogValue.text v) d else d)) both
    where
      bar : lacks b'|' v ≡ true
      bar = ground arith

      other : (k == codes "timestamp") ≡ false
      other = ground arith

      bracket : ((k == codes "timestamp") && not (lacks b']' v)) ≡ false
      bracket = ap (λ b. b && not (lacks b']' v)) other

      both : (not (is_empty k) && not (is_empty v)) ≡ true
      both = ground arith

  read_attributes :
      (d : Attributes) (kvs : List (Text × Text))
      → all is_readable kvs ≡ true
      → ends_with_value kvs ≡ true
      → (run parse_date (printed kvs) (parser d [] [] State.attr) >>= λ p. some (last_stored p))
        ≡ some (set_all kvs d)
  unfolding run last_stored
  read_attributes d [] h e = refl
  read_attributes d ((k, v) ∷ []) h e =
      ap (λ m. m >>= λ p. some (last_stored p)) (read_name d k v v (and-left _ _ h))
      ∙ read_last d k v (and-left _ _ h) e
  read_attributes d ((k, v) ∷ (j, w) ∷ rest) h e =
      ap (λ m. m >>= λ p. some (last_stored p))
        (read_name d k v (v ++ (b'|' ∷ printed ((j, w) ∷ rest))) (and-left _ _ h)
          ∙ read_value d k v (printed ((j, w) ∷ rest)) (and-left _ _ h))
      ∙ read_attributes (set k (LogValue.text v) d) ((j, w) ∷ rest) (and-right _ _ h) e

  read_bracket :
      (timestamp rest t : Text)
      → parse_date timestamp ≡ some t
      → run parse_date (b']' ∷ rest) (parser [] (codes "timestamp") timestamp State.val)
        ≡ run parse_date rest
            (parser ((codes "timestamp", LogValue.date t) ∷ []) [] [] State.outside)
  unfolding run step_in step_val store ended set
  read_bracket timestamp rest t dated = rw (dated) refl

  -- up to the attributes
  read_head :
      (timestamp head rest t : Text)
      → parse_date timestamp ≡ some t
      → (lacks b'|' timestamp && lacks b']' timestamp) ≡ true
      → (lacks b'[' head && lacks b':' head) ≡ true
      → run parse_date (b'[' ∷ (timestamp ++ (b']' ∷ (head ++ (b':' ∷ (b' ' ∷ rest)))))) initial
        ≡ run parse_date rest (parser ((codes "timestamp", LogValue.date t) ∷ []) [] [] State.attr)
  unfolding run step_in step_outside step_val step_attr store ended set get is_true
  read_head timestamp head rest t dated h g =
      run-append parse_date timestamp after (parser [] (codes "timestamp") [] State.val)
      ∙ ap (λ m. m >>= run parse_date after)
          (run-val parse_date [] (codes "timestamp") [] timestamp (and-left _ _ h) (ground arith))
      ∙ read_bracket timestamp (head ++ (b':' ∷ (b' ' ∷ rest))) t dated
      ∙ run-append parse_date head (b':' ∷ (b' ' ∷ rest)) dated_parser
      ∙ ap (λ m. m >>= run parse_date (b':' ∷ (b' ' ∷ rest)))
          (run-outside parse_date ((codes "timestamp", LogValue.date t) ∷ []) head (and-left _ _ g)
            (ground arith))
    where
      after : Text
      after = b']' ∷ (head ++ (b':' ∷ (b' ' ∷ rest)))

      dated_parser : Parser
      dated_parser = parser ((codes "timestamp", LogValue.date t) ∷ []) [] [] State.outside

set_all-first :
    (kvs : List (Text × Text)) (v : LogValue) (d : Attributes)
    → all is_readable kvs ≡ true
    → set_all kvs ((codes "timestamp", v) ∷ d) ≡ (codes "timestamp", v) ∷ set_all kvs d
unfolding set
set_all-first [] v d h = refl
set_all-first ((k, x) ∷ rest) v d h =
    ap (set_all rest) (kept (codes "timestamp" == k) refl)
    ∙ set_all-first rest v (set k (LogValue.text x) d) (and-right _ _ h)
  where
    kept :
        (b : Bool)
        → (codes "timestamp" == k) ≡ b
        → (if b
            then (k, LogValue.text x) ∷ d
            else (codes "timestamp", v) ∷ set k (LogValue.text x) d)
          ≡ (codes "timestamp", v) ∷ set k (LogValue.text x) d
    kept false e = refl
    kept true e = absurd (
        ground
          (arith, list_eq.test_iff (codes "timestamp") k, list_eq.test_iff k (codes "timestamp")))

-- A message with a timestamp that is a date, a head, and attributes is read back: the timestamp's
-- date, and each attribute with its text, a later one in place of an earlier one of the same name;
-- then what is an integer under a name with "id" at its end becomes one, and "args" its words. The
-- timestamp has no bar and no closing bracket, the head no opening bracket and no colon, a name is not
-- empty, is not "timestamp", has no equals sign and does not begin with a space, a value has no bar, and
-- the last value is not empty.
pub parse-message :
    (parse_date to_int : Text → Option Text) (split : Text → List Text) (timestamp head t : Text)
    (kvs : List (Text × Text))
    → parse_date timestamp ≡ some t
    → (lacks b'|' timestamp && lacks b']' timestamp) ≡ true
    → (lacks b'[' head && lacks b':' head) ≡ true
    → all is_readable kvs ≡ true
    → ends_with_value kvs ≡ true
    → parse_santa_log_message parse_date to_int split (message timestamp head kvs)
      ≡ some (read_back to_int split ((codes "timestamp", LogValue.date t) ∷ set_all kvs []))
unfolding parse_santa_log_message finish get with_integer
parse-message parse_date to_int split timestamp head t kvs dated h g readable last =
    ap (λ m. m >>= λ p. finish to_int split (last_stored p))
      (read_head parse_date timestamp head (printed kvs) t dated h g)
    ∙ after_last (
        run parse_date (printed kvs)
          (parser ((codes "timestamp", LogValue.date t) ∷ []) [] [] State.attr))
    ∙ ap (λ m. m >>= finish to_int split)
        (read_attributes parse_date ((codes "timestamp", LogValue.date t) ∷ []) kvs readable last
          ∙ ap some (set_all-first kvs (LogValue.date t) [] readable))
  where
    after_last :
        (m : Option Parser)
        → (m >>= λ p. finish to_int split (last_stored p))
          ≡ ((m >>= λ p. some (last_stored p)) >>= finish to_int split)
    after_last none = refl
    after_last (some p) = refl
