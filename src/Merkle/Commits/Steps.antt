-- ===== src/Merkle/Commits/Steps.antt =====
-- What is known when a step of a commit returns, and of the rows that are found.
use zentral.Merkle.Commits.{
  Error, Store, Row, Session, get, continue, ◌then_do◌, lifted, found_or, raise, verdict, checked,
  save_object, is_there, Environment,
}
use mathlib.Core.Option.{none-ne-some}
use zentral.Base.{
  Bool, Option, String, [], ap, arith, beq-eq_of, false, if◌then◌else◌, none, not, refl, some,
  string_eq, subst, true, ◌++◌, ◌==◌, ◌||◌, ◌∙◌, ◌∷◌, ◌≡◌, nat_eq, option_eq, bool_eq,
}
use zentral.Merkle.Results.{err-ne-ok, Result, ok, err}
use zentral.Merkle.Objects.{Object, hash}

-- A property of the store and of the value, if there is one.
abbrev pub Ends : {A : Type 0} → (Store → A → Type 0) → Store × Result A → Type 0
Ends P (st, ok a) = P st a
Ends P (st, err e) = Unit

pub Ends-continue :
    {A B : Type 0} (P : Store → A → Type 0) (Q : Store → B → Type 0) (next : A → Session B)
    (r : Store × Result A)
    → Ends P r
    → ((st : Store) (a : A) → P st a → Ends Q (next a st))
    → Ends Q (continue next r)
Ends-continue P Q next (st, ok a) h k = k st a h
Ends-continue P Q next (st, err e) h k = tt

-- a step that does not return has any property
pub Ends-always :
    {A : Type 0} (P : Store → A → Type 0) (r : Store × Result A)
    → ((st : Store) (a : A) → P st a)
    → Ends P r
Ends-always P (st, ok a) h = h st a
Ends-always P (st, err e) h = tt

pub Ends_at :
    {A : Type 0} (P : Store → A → Type 0) (r : Store × Result A) (st : Store) (a : A)
    → Ends P r
    → r ≡ (st, ok a)
    → P st a
Ends_at P r st a h e = subst (Ends P) e h

pub Ends-lifted :
    {A B : Type 0} (Q : Store → B → Type 0) (r : Result A) (next : A → Session B) (st : Store)
    → ((a : A) → r ≡ ok a → Ends Q (next a st))
    → Ends Q ((lifted r then_do next) st)
Ends-lifted Q (ok a) next st k = k a refl
Ends-lifted Q (err e) next st k = tt

pub lifted-ok :
    {A B : Type 0} (r : Result A) (next : A → Session B) (st after : Store) (b : B)
    → (lifted r then_do next) st ≡ (after, ok b)
    → (a : A) × (r ≡ ok a)
lifted-ok (ok a) next st after b h = (a, refl)
lifted-ok (err e) next st after b h = err-ne-ok {e = e} {a = b} (ap (λ p. p.1) h)

pub Ends-found_or :
    (Q : Store → Object × Bool → Type 0) (found : Option Object) (next : Session (Object × Bool))
    (st : Store)
    → ((obj : Object) → found ≡ some obj → Q st (obj, false))
    → (found ≡ none → Ends Q (next st))
    → Ends Q (found_or found next st)
Ends-found_or Q (some obj) next st h k = h obj refl
Ends-found_or Q none next st h k = k refl

pub get-append :
    (model h : String) (rows : Store) (row : Row)
    → get model h rows ≡ none
    → row.model ≡ model
    → row.object.mt_hash ≡ h
    → get model h (rows ++ (row ∷ [])) ≡ some row.object
unfolding get
get-append model h [] row none_yet same_model same_hash =
    ground (arith, string_eq.test_iff row.model model, string_eq.test_iff row.object.mt_hash h)
get-append model h (r ∷ rows) row none_yet same_model same_hash =
    ground (arith, get-append model h rows row)

pub get-stays :
    (model h : String) (rows more : Store) (obj : Object)
    → get model h rows ≡ some obj
    → get model h (rows ++ more) ≡ some obj
unfolding get
get-stays model h [] more obj found = absurd (none-ne-some obj found)
get-stays model h (r ∷ rows) more obj found = ground (arith, get-stays model h rows more obj)

module _ (env : Environment) (Q : Store → Object × Bool → Type 0) where
  pub checked-Ends :
      (model : String) (obj : Object) (st : Store)
      → (hash env.sha1 env.make_naive (env.models model) obj ≡ ok obj.mt_hash → Q st (obj, true))
      → Ends Q (checked env model obj st)
  unfolding checked verdict
  checked-Ends model obj st h =
      Ends-lifted Q (hash env.sha1 env.make_naive (env.models model) obj) (verdict obj) st
        (λ digest same.
          by_test (digest == obj.mt_hash) (λ e. h (same ∙ ap ok (beq-eq_of digest obj.mt_hash e))))
    where
      by_test :
          (b : Bool)
          → (b ≡ true → Q st (obj, true))
          → Ends Q (lifted (if b then ok (obj, true) else err Error.hash_mismatch) st)
      by_test true k = k refl
      by_test false k = tt

  by_conflict :
      (found : Option Object) (violates clean : Bool) (now : Store)
      (r : Store × Result (Object × Bool))
      → ((obj : Object) → found ≡ some obj → Q now (obj, false))
      → (found ≡ none → Ends Q r)
      → Ends Q (
          if is_there found || violates
          then found_or found (raise Error.integrity_error) now
          else if not clean
          then (now, err Error.validation_error)
          else r)
  by_conflict (some obj) violates clean now r h k = h obj refl
  by_conflict none true clean now r h k = tt
  by_conflict none false true now r h k = k refl
  by_conflict none false false now r h k = tt

  -- An object that is saved was stored by another process, or it is new and its hash is right.
  pub save_object-Ends :
      (model : String) (obj : Object) (st : Store)
      → ((other : Object)
          → get model obj.mt_hash (env.meanwhile st) ≡ some other
          → Q (env.meanwhile st) (other, false))
      → (get model obj.mt_hash (env.meanwhile st) ≡ none
          → hash env.sha1 env.make_naive (env.models model) obj ≡ ok obj.mt_hash
          → Q (env.meanwhile st ++ (record { model = model; object = obj } ∷ [])) (obj, true))
      → Ends Q (save_object env model obj st)
  unfolding save_object
  save_object-Ends model obj st h k =
      by_conflict (get model obj.mt_hash (env.meanwhile st)) (env.violates model obj)
        (env.full_clean model obj) (env.meanwhile st)
        (checked env model obj (env.meanwhile st ++ (record { model = model; object = obj } ∷ [])))
        h (λ fresh. checked-Ends model obj _ (k fresh))
