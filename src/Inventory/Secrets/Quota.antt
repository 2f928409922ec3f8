-- ===== src/Inventory/Secrets/Quota.antt =====
-- The quota of an enrollment secret (zentral/contrib/inventory/models.py).
use zentral.Base.{
  Bool, Bool-cases, List, Option, String, [], all, all-of_none, and-left, and-right, and_of, any,
  any-cong, any-map, ap, arith, beq-eq_of, beq_refl, false, false_of_not, find, find-any-false,
  if◌then◌else◌, inl, inr, leb, length, map, none, not, or_left_of, or_right_of, refl, select, some,
  subst, suc, sym, true, ℕ, ◌&&◌, ◌==◌, ◌||◌, ◌∙◌, ◌∷◌, ◌≡◌, nat_eq, string_eq, option_eq,
}
use mathlib.Core.Path.{ap₂}
use mathlib.Core.Option.{none-ne-some, some-injective}
use zentral.Inventory.Secrets.{
  EnrollmentSecret, EnrollmentSecretRequest, SecretTables, SecretError, Verified, verified, failed,
  is_valid, is_used_up, is_revoked, is_expired, is_excluded, is_other_unit, reaches, count_request,
  accept, verify_found, verify,
}

abbrev pub is_request_of : ℕ → EnrollmentSecretRequest → Bool
is_request_of pk r = r.enrollment_secret == pk

abbrev pub is_within : ℕ → Option ℕ → Bool
is_within count none = true
is_within count (some quota) = (quota == 0) || leb count quota

-- The requests that were accepted are counted, and they are within the quota.
abbrev pub is_counted : List EnrollmentSecretRequest → EnrollmentSecret → Bool
is_counted requests es =
    (es.request_count == length (select (is_request_of es.pk) requests))
    && is_within es.request_count es.quota

abbrev pub has_unique_pks : List EnrollmentSecret → Bool
has_unique_pks [] = true
has_unique_pks (es ∷ secrets) = not (any (λ x. x.pk == es.pk) secrets) && has_unique_pks secrets

abbrev pub is_sound : SecretTables → Bool
is_sound tables = all (is_counted tables.requests) tables.secrets && has_unique_pks tables.secrets

within_quota :
    (count : ℕ) (quota : Option ℕ)
    → reaches count quota ≡ false
    → is_within (suc count) quota ≡ true
within_quota count none h = refl
within_quota count (some quota) h = ground arith

-- A secret that is accepted is not used up.
is_valid-is_used_up :
    (now : ℕ) (serial_number udid : Option String) (unit : Option ℕ) (es : EnrollmentSecret)
    → is_valid now serial_number udid unit es ≡ none
    → is_used_up es ≡ false
unfolding is_valid
is_valid-is_used_up now serial_number udid unit es h =
    not_used_up (is_revoked es) (is_expired now es) (is_excluded serial_number es.serial_numbers)
      (is_excluded udid es.udids) (is_other_unit unit es) (is_used_up es) h
  where
    not_used_up :
        (a b c d e f : Bool)
        → (if a
            then some SecretError.revoked
            else if b
            then some SecretError.expired
            else if c
            then some SecretError.serial_number_mismatch
            else if d
            then some SecretError.udid_mismatch
            else if e
            then some SecretError.business_unit_mismatch
            else if f
            then some SecretError.quota_used_up
            else none)
          ≡ none
        → f ≡ false
    not_used_up a b c d e false h = refl
    not_used_up true b c d e true h = absurd (none-ne-some _ (sym h))
    not_used_up false true c d e true h = absurd (none-ne-some _ (sym h))
    not_used_up false false true d e true h = absurd (none-ne-some _ (sym h))
    not_used_up false false false true e true h = absurd (none-ne-some _ (sym h))
    not_used_up false false false false true true h = absurd (none-ne-some _ (sym h))
    not_used_up false false false false false true h = absurd (none-ne-some _ (sym h))

-- The result of a verification leaves sound tables.
abbrev pub StaysSound : SecretTables → Verified → Type 0
StaysSound tables (failed e) = Unit
StaysSound tables (verified r t) = is_sound t ≡ true

abbrev counted_once_more : EnrollmentSecret → EnrollmentSecret
counted_once_more es = record es { request_count = suc es.request_count }

counted_once_more-is_counted :
    (r : EnrollmentSecretRequest) (requests : List EnrollmentSecretRequest) (es : EnrollmentSecret)
    → (r.enrollment_secret == es.pk) ≡ true
    → is_used_up es ≡ false
    → is_counted requests es ≡ true
    → is_counted (r ∷ requests) (counted_once_more es) ≡ true
counted_once_more-is_counted r requests es same h k =
    let e : es.request_count ≡ length (select (is_request_of es.pk) requests) =
      beq-eq_of es.request_count (length (select (is_request_of es.pk) requests))
        (and-left _ (is_within es.request_count es.quota) k) in
    let within : is_within (suc es.request_count) es.quota ≡ true =
      within_quota es.request_count es.quota h in
    and_of _ _ (rw (same, e) (beq_refl (suc (length (select (is_request_of es.pk) requests)))))
      within

beq_sym : (a b : ℕ) → (a == b) ≡ (b == a)
beq_sym a b = ground arith

count_request-is_counted :
    (r : EnrollmentSecretRequest) (requests : List EnrollmentSecretRequest) (es : EnrollmentSecret)
    → ((es.pk == r.enrollment_secret) ≡ true → is_used_up es ≡ false)
    → is_counted requests es ≡ true
    → is_counted (r ∷ requests) (count_request r.enrollment_secret es) ≡ true
count_request-is_counted r requests es h k = elim (Bool-cases (es.pk == r.enrollment_secret)) [
  | inl same ↦
      subst (λ x. is_counted (r ∷ requests) x ≡ true)
        (sym (ap (λ b. if b then counted_once_more es else es) same))
        (counted_once_more-is_counted r requests es (sym (beq_sym es.pk r.enrollment_secret) ∙ same)
          (h same) k)
  | inr other ↦
      subst (λ x. is_counted (r ∷ requests) x ≡ true)
        (sym (ap (λ b. if b then counted_once_more es else es) other))
        (ap
            (λ b.
              (es.request_count
                == length (
                    if b
                    then r ∷ select (is_request_of es.pk) requests
                    else select (is_request_of es.pk) requests))
              && is_within es.request_count es.quota)
            (sym (beq_sym es.pk r.enrollment_secret) ∙ other)
          ∙ k)
]

count_request-all :
    (r : EnrollmentSecretRequest) (requests : List EnrollmentSecretRequest)
    (secrets : List EnrollmentSecret)
    → all (λ es. not (es.pk == r.enrollment_secret) || not (is_used_up es)) secrets ≡ true
    → all (is_counted requests) secrets ≡ true
    → all (is_counted (r ∷ requests)) (map (count_request r.enrollment_secret) secrets) ≡ true
count_request-all r requests [] h k = refl
count_request-all r requests (es ∷ secrets) h k =
    and_of _ _
      (count_request-is_counted r requests es (free_of _ _ (and-left _ _ h)) (and-left _ _ k))
      (count_request-all r requests secrets (and-right _ _ h) (and-right _ _ k))
  where
    free_of : (a b : Bool) → (not a || not b) ≡ true → a ≡ true → b ≡ false
    free_of a b h e = ground arith

pk-count_request : (pk : ℕ) (es : EnrollmentSecret) → (count_request pk es).pk ≡ es.pk
pk-count_request pk es = kept (es.pk == pk)
  where
    kept : (b : Bool) → (if b then counted_once_more es else es).pk ≡ es.pk
    kept true = refl
    kept false = refl

count_request-has_unique_pks :
    (pk : ℕ) (secrets : List EnrollmentSecret)
    → has_unique_pks (map (count_request pk) secrets) ≡ has_unique_pks secrets
count_request-has_unique_pks pk [] = refl
count_request-has_unique_pks pk (es ∷ secrets) =
    ap₂ (λ a b. not a && b)
      (any-map (λ x. x.pk == (count_request pk es).pk) (count_request pk) secrets
        ∙ any-cong _ _ (λ x. ap₂ (λ a b. a == b) (pk-count_request pk x) (pk-count_request pk es))
            secrets)
      (count_request-has_unique_pks pk secrets)

-- Only the secret that is found has its key.
found_free :
    (p : EnrollmentSecret → Bool) (es : EnrollmentSecret) (secrets : List EnrollmentSecret)
    → has_unique_pks secrets ≡ true
    → find p secrets ≡ some es
    → is_used_up es ≡ false
    → all (λ x. not (x.pk == es.pk) || not (is_used_up x)) secrets ≡ true
found_free p es [] u h f = refl
found_free p es (x ∷ secrets) u h f = elim (Bool-cases (p x)) [
  | inl same ↦
      let e : es ≡ x =
        some-injective es x (sym h ∙ ap (λ b. if b then some x else find p secrets) same) in
      and_of _ _ (or_right_of _ _ (ap (λ y. not (is_used_up y)) (sym e) ∙ ap not f)) (
        ap (λ k. all (λ y. not (y.pk == k) || not (is_used_up y)) secrets) (ap (λ y. y.pk) e)
        ∙ all-of_none (λ y. not (is_used_up y)) (λ y. y.pk == x.pk) secrets
            (false_of_not _ (and-left _ _ u)))
  | inr other ↦
      let rest = ap (λ b. if b then some x else find p secrets) (sym other) ∙ h in
      let away =
        find-any-false p (λ y. y.pk == x.pk) es secrets rest (false_of_not _ (and-left _ _ u)) in
      and_of _ _ (or_left_of _ _ (ap not (beq_sym x.pk es.pk ∙ away)))
        (found_free p es secrets (and-right _ _ u) rest f)
]

verify_found-StaysSound :
    (p : EnrollmentSecret → Bool) (now : ℕ) (user_agent ip : String)
    (serial_number udid : Option String) (unit : Option ℕ) (tables : SecretTables)
    → is_sound tables ≡ true
    → StaysSound tables
        (verify_found now user_agent ip serial_number udid unit tables (find p tables.secrets))
verify_found-StaysSound p now user_agent ip serial_number udid unit tables s =
    go (find p tables.secrets) refl
  where
    go :
        (o : Option EnrollmentSecret)
        → find p tables.secrets ≡ o
        → StaysSound tables (verify_found now user_agent ip serial_number udid unit tables o)
    go none e = tt
    go (some es) e = accepted (is_valid now serial_number udid unit es) refl
      where
        accepted :
            (v : Option SecretError)
            → is_valid now serial_number udid unit es ≡ v
            → StaysSound tables (
                accept
                  (record {
                    enrollment_secret = es.pk;
                    user_agent = user_agent;
                    public_ip_address = ip;
                    serial_number = serial_number;
                    udid = udid;
                  })
                  tables
                  v)
        accepted (some err) k = tt
        accepted none k =
            and_of _ _
              (count_request-all _ tables.requests tables.secrets
                (found_free p es tables.secrets (and-right _ _ s) e
                  (is_valid-is_used_up now serial_number udid unit es k))
                (and-left _ _ s))
              (count_request-has_unique_pks es.pk tables.secrets ∙ and-right _ _ s)

-- Whoever enrolls and however often: each secret counts exactly the requests that were accepted with
-- it, and their number never exceeds its quota, if the tables were so before.
pub verify-StaysSound :
    (is_for_model : EnrollmentSecret → Bool) (now : ℕ) (secret user_agent ip : String)
    (serial_number udid : Option String) (unit : Option ℕ) (tables : SecretTables)
    → is_sound tables ≡ true
    → StaysSound tables
        (verify is_for_model now secret user_agent ip serial_number udid unit tables)
unfolding verify
verify-StaysSound is_for_model now secret user_agent ip serial_number udid unit tables s =
    verify_found-StaysSound (λ es. is_for_model es && (es.secret == secret)) now user_agent ip
      serial_number udid unit tables s
