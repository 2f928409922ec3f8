-- ===== src/Santa/Logs/Reading.antt =====
-- What the parser of the agent's log messages reads back.
use mathlib.Core.List.{append_assoc, append-nil}
use zentral.Base.Tests.{list_eq}
use zentral.Base.{
  Bool, List, Option, [], ap, arith, contains, false, is_empty, none, not, refl, some, sym, true, ℕ,
  ◌&&◌, ◌++◌, ◌==◌, ◌>>=◌, ◌||◌, ◌∙◌, ◌∷◌, ◌≡◌, nat_eq, string_eq, option_eq, bool_eq,
}
use zentral.Santa.Logs.{
  Text, codes, Attributes, State, Parser, get, is_true, step_outside, step_attr, step_val, step_in,
  run,
}

-- a character that a text does not have
abbrev pub lacks : ℕ → Text → Bool
lacks c s = not (contains s c)

-- The attributes of a message, with a bar between them.
abbrev pub printed : List (Text × Text) → Text
printed [] = []
printed ((k, v) ∷ []) = k ++ (b'=' ∷ v)
printed ((k, v) ∷ rest) = k ++ (b'=' ∷ (v ++ (b'|' ∷ printed rest)))

abbrev pub starts_with_space : Text → Bool
starts_with_space [] = false
starts_with_space (c ∷ s) = c == b' '

-- A name and a value that can be told apart from what stands around them.
abbrev pub is_readable : Text × Text → Bool
is_readable (k, v) =
    not (is_empty k || starts_with_space k)
    && (lacks b'=' k && (not (k == codes "timestamp") && lacks b'|' v))

append-nonempty : (read : Text) (c : ℕ) → is_empty (read ++ (c ∷ [])) ≡ false
append-nonempty [] c = refl
append-nonempty (x ∷ xs) c = refl

module _ (parse_date : Text → Option Text) where
  pub run-append :
      (xs ys : Text) (p : Parser)
      → run parse_date (xs ++ ys) p ≡ (run parse_date xs p >>= run parse_date ys)
  unfolding run
  run-append [] ys p = refl
  run-append (x ∷ xs) ys p = chained (step_in parse_date p.state x p) (run-append xs ys)
    where
      chained :
          (m : Option Parser)
          → ((q : Parser)
              → run parse_date (xs ++ ys) q ≡ (run parse_date xs q >>= run parse_date ys))
          → (m >>= λ q. run parse_date (xs ++ ys) q)
            ≡ ((m >>= λ q. run parse_date xs q) >>= run parse_date ys)
      chained none h = refl
      chained (some q) h = h q

  -- a value without a bar is added to what has been read of it
  pub run-val :
      (d : Attributes) (name read s : Text)
      → lacks b'|' s ≡ true
      → ((name == codes "timestamp") && not (lacks b']' s)) ≡ false
      → run parse_date s
          (record { d = d; current_attr = name; current_val = read; state = State.val })
        ≡ some (record { d = d; current_attr = name; current_val = read ++ s; state = State.val })
  unfolding run step_in step_val
  run-val d name read [] bar bracket =
      ap (λ t. some (record { d = d; current_attr = name; current_val = t; state = State.val }))
        (sym (append-nil read))
  run-val d name read (c ∷ s) bar bracket =
      rw (other, unended) (run-val d name (read ++ (c ∷ [])) s rest_bar rest_bracket)
      ∙ ap (λ t. some (record { d = d; current_attr = name; current_val = t; state = State.val }))
          (append_assoc read (c ∷ []) s)
    where
      other : (c == b'|') ≡ false
      other = ground arith

      unended : ((name == codes "timestamp") && (c == b']')) ≡ false
      unended = ground arith

      rest_bar : lacks b'|' s ≡ true
      rest_bar = ground arith

      rest_bracket : ((name == codes "timestamp") && not (lacks b']' s)) ≡ false
      rest_bracket = ground arith

  -- a name without an equals sign is added to what has been read of it
  pub run-attr :
      (d : Attributes) (read s : Text)
      → (is_empty read && starts_with_space s) ≡ false
      → lacks b'=' s ≡ true
      → run parse_date s
          (record { d = d; current_attr = read; current_val = []; state = State.attr })
        ≡ some (record { d = d; current_attr = read ++ s; current_val = []; state = State.attr })
  unfolding run step_in step_attr
  run-attr d read [] space equals =
      ap (λ t. some (record { d = d; current_attr = t; current_val = []; state = State.attr }))
        (sym (append-nil read))
  run-attr d read (c ∷ s) space equals =
      rw (other, kept)
        (run-attr d (read ++ (c ∷ [])) s
          (ap (λ b. b && starts_with_space s) (append-nonempty read c)) rest_equals)
      ∙ ap (λ t. some (record { d = d; current_attr = t; current_val = []; state = State.attr }))
          (append_assoc read (c ∷ []) s)
    where
      other : (c == b'=') ≡ false
      other = ground arith

      kept : (not (is_empty read) || not (c == b' ')) ≡ true
      kept = ground arith

      rest_equals : lacks b'=' s ≡ true
      rest_equals = ground arith

  -- before the timestamp, and after it up to the colon
  pub run-outside :
      (d : Attributes) (s : Text)
      → lacks b'[' s ≡ true
      → (is_true (get (codes "timestamp") d) && not (lacks b':' s)) ≡ false
      → run parse_date s
          (record { d = d; current_attr = []; current_val = []; state = State.outside })
        ≡ some (record { d = d; current_attr = []; current_val = []; state = State.outside })
  unfolding run step_in step_outside
  run-outside d [] bracket colon = refl
  run-outside d (c ∷ s) bracket colon =
      rw (other, not_yet) (run-outside d s rest_bracket rest_colon)
    where
      other : (c == b'[') ≡ false
      other = ground arith

      not_yet : (is_true (get (codes "timestamp") d) && (c == b':')) ≡ false
      not_yet = ground arith

      rest_bracket : lacks b'[' s ≡ true
      rest_bracket = ground arith

      rest_colon : (is_true (get (codes "timestamp") d) && not (lacks b':' s)) ≡ false
      rest_colon = ground arith
