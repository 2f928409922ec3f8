-- ===== src/Santa/Uploads/Hashes.antt =====
-- The hashes that `_create_missing_bundles` of zentral/contrib/santa/events/__init__.py returns.
use zentral.Base.{
  Bool, List, Option, [], any, ap, arith, beq-eq_of, contains, false, if◌then◌else◌, map, none, not,
  refl, select, some, sym, true, ℕ, ◌&&◌, ◌==◌, ◌||◌, ◌∙◌, ◌∷◌, ◌≡◌, nat_eq, string_eq, option_eq,
}
use zentral.Santa.Forms.{Tables}
use zentral.Santa.Uploads.{
  Event, is_bundle_binary_pseudo_event, set_item, with_hash, bundle_events, is_existing,
  create_missing_bundles,
}

contains-set_item {ℓ} :
    {A : Type ℓ} (key sha256 : ℕ) (a : A) (xs : List (ℕ × A))
    → contains (map (λ x. x.0) (set_item key a xs)) sha256
      ≡ ((key == sha256) || contains (map (λ x. x.0) xs) sha256)
contains-set_item key sha256 a [] = refl
contains-set_item key sha256 a (x ∷ xs) = ground (arith, contains-set_item key sha256 a xs)

-- Does the event report the bundle?
abbrev pub reports : ℕ → Event → Bool
reports sha256 e = not (is_bundle_binary_pseudo_event e) && (e.file_bundle_hash == some sha256)

with_hash-contains :
    (o : Option ℕ) (sha256 : ℕ) (e : Event) (seen : List (ℕ × Event))
    → contains (map (λ x. x.0) (with_hash o (λ k d. set_item k e d) seen)) sha256
      ≡ ((o == some sha256) || contains (map (λ x. x.0) seen) sha256)
with_hash-contains none sha256 e seen = refl
with_hash-contains (some k) sha256 e seen = contains-set_item k sha256 e seen

or_false : (b : Bool) → (b || false) ≡ b
or_false b = ground arith

regroup : (c r a s : Bool) → c ≡ (r || s) → (c || a) ≡ (s || (r || a))
regroup c r a s h = ground arith

same_hash : (m g h c : Bool) → (m ≡ true → g ≡ h) → ((g && m) || (c && h)) ≡ ((m || c) && h)
same_hash true g h c e = rw (e refl) (ground arith)
same_hash false g h c e = ground arith

bundle_events-contains :
    (sha256 : ℕ) (seen : List (ℕ × Event)) (es : List Event)
    → contains (map (λ x. x.0) (bundle_events seen es)) sha256
      ≡ (contains (map (λ x. x.0) seen) sha256 || any (reports sha256) es)
unfolding bundle_events
bundle_events-contains sha256 seen [] = sym (or_false _)
bundle_events-contains sha256 seen (e ∷ es) =
    bundle_events-contains sha256
      (if is_bundle_binary_pseudo_event e
        then seen
        else with_hash e.file_bundle_hash (λ k d. set_item k e d) seen)
      es
    ∙ regroup _ _ _ _ (turn (is_bundle_binary_pseudo_event e))
  where
    turn :
        (pseudo : Bool)
        → contains
            (map
              (λ x. x.0)
              (if pseudo then seen else with_hash e.file_bundle_hash (λ k d. set_item k e d) seen))
            sha256
          ≡ ((not pseudo && (e.file_bundle_hash == some sha256))
              || contains (map (λ x. x.0) seen) sha256)
    turn true = refl
    turn false = with_hash-contains e.file_bundle_hash sha256 e seen

contains-select :
    (g : ℕ → Bool) (sha256 : ℕ) (xs : List (ℕ × Event))
    → contains (map (λ x. x.0) (select (λ x. g x.0) xs)) sha256
      ≡ (contains (map (λ x. x.0) xs) sha256 && g sha256)
contains-select g sha256 [] = refl
contains-select g sha256 (x ∷ xs) =
    turn (g x.0)
    ∙ ap (λ b. (g x.0 && (x.0 == sha256)) || b) (contains-select g sha256 xs)
    ∙ same_hash (x.0 == sha256) (g x.0) (g sha256) _ (λ same. ap g (beq-eq_of x.0 sha256 same))
  where
    turn :
        (b : Bool)
        → contains
            (map (λ x. x.0) (if b then x ∷ select (λ x. g x.0) xs else select (λ x. g x.0) xs))
            sha256
          ≡ ((b && (x.0 == sha256)) || contains (map (λ x. x.0) (select (λ x. g x.0) xs)) sha256)
    turn true = refl
    turn false = refl

-- A hash is returned exactly if an event that is no pseudo event reports it and no uploaded bundle has
-- it.
pub create_missing_bundles-hashes :
    (es : List Event) (tables : Tables) (sha256 : ℕ)
    → contains (create_missing_bundles es tables).0 sha256
      ≡ (any (reports sha256) es && not (is_existing tables sha256))
unfolding create_missing_bundles
create_missing_bundles-hashes es tables sha256 =
    contains-select (λ k. not (is_existing tables k)) sha256 (bundle_events [] es)
    ∙ ap (λ b. b && not (is_existing tables sha256)) (bundle_events-contains sha256 [] es)
