-- ===== src/Santa/Uploads/Complete.antt =====
-- The bundles that are marked as uploaded by zentral/contrib/santa/events/__init__.py.
use zentral.Base.{
  Bool, Bool-cases, List, Option, Yields, Yields-bind, Yields-if, [], all, and-left, and-right, any,
  arith, false, if◌then◌else◌, inl, inr, length, none, not, refl, some, true, ℕ, ◌&&◌, ◌++◌, ◌==◌,
  ◌>>=◌, ◌||◌, ◌∷◌, ◌≡◌, nat_eq, string_eq, option_eq,
}
use zentral.Santa.Rules.{Bundle}
use zentral.Santa.Forms.{Tables, has_field}
use zentral.Santa.Uploads.{
  Event, Binaries, is_bundle_binary_pseudo_event, is_uploaded, append_item, with_hash,
  bundle_binary_events, add_binaries, complete_bundle, save_bundle, add_to_bundle, add_to_bundles,
  create_bundle_binaries, create_bundle, create_bundles, create_missing_bundles,
  get_or_create_bundle, new_bundle, process_events, unknown_events, add_binary, add_targets,
}

-- A bundle that is uploaded has its binaries: as many as were announced, and at least one.
abbrev pub is_complete : Bundle → Bool
is_complete b =
    not (is_uploaded b)
    || (not (b.binary_count == 0) && (length b.binary_targets == b.binary_count))

abbrev pub are_complete : Tables → Bool
are_complete tables = all is_complete tables.bundles

-- An event on a binary of a bundle has the hash of the binary.
abbrev pub has_binary : Event → Bool
has_binary e = has_field e.file_sha256

complete_bundle-is_complete :
    (now : ℕ) (s : Binaries) (b : Bundle)
    → is_uploaded b ≡ false
    → is_complete (complete_bundle now s b) ≡ true
unfolding complete_bundle
complete_bundle-is_complete now s b h =
    dated
      (not ((if b.binary_count == 0 then s.binary_count else b.binary_count) == 0)
        && (length (add_targets b.binary_targets s.binary_targets)
            == (if b.binary_count == 0 then s.binary_count else b.binary_count)))
      b.uploaded_at h
  where
    dated :
        (c : Bool) (o : Option ℕ)
        → not (o == none) ≡ false
        → (not (not ((if c then some now else o) == none)) || c) ≡ true
    dated true o h = refl
    dated false o h = ground arith

save_bundle_complete :
    (new : Bundle) (bundles : List Bundle)
    → is_complete new ≡ true
    → all is_complete bundles ≡ true
    → all is_complete (save_bundle new bundles) ≡ true
save_bundle_complete new [] h k = refl
save_bundle_complete new (b ∷ bundles) h k = ground (arith, save_bundle_complete new bundles h)

get_or_create_bundle_complete :
    (new : Bundle) (bundles : List Bundle)
    → is_complete new ≡ true
    → all is_complete bundles ≡ true
    → all is_complete (get_or_create_bundle new bundles) ≡ true
get_or_create_bundle_complete new bundles h k =
    elim (Bool-cases (any (λ b. b.target == new.target) bundles)) [
      | inl there ↦ rw there k
      | inr missing ↦ rw (missing, h) k
    ]

create_bundles-are_complete :
    (es : List (ℕ × Event)) (tables : Tables)
    → are_complete tables ≡ true
    → are_complete (create_bundles es tables) ≡ true
unfolding create_bundles create_bundle new_bundle
create_bundles-are_complete [] tables h = h
create_bundles-are_complete (e ∷ es) tables h =
    create_bundles-are_complete es _ (get_or_create_bundle_complete _ tables.bundles refl h)

add_binaries-total :
    (es : List Event) (s : Binaries)
    → all has_binary es ≡ true
    → Yields (λ t. Unit) (add_binaries es s)
unfolding add_binaries
add_binaries-total [] s h = tt
add_binaries-total (e ∷ es) s h =
    go e.file_sha256 (and-left _ _ h) (λ t. add_binaries-total es t (and-right _ _ h))
  where
    go :
        (o : Option ℕ)
        → has_field o ≡ true
        → ((t : Binaries) → Yields (λ t. Unit) (add_binaries es t))
        → Yields (λ t. Unit) (add_binary e o s >>= add_binaries es)
    go (some sha256) f rest = rest _
    go none f rest = ground arith

all-append :
    (p : Event → Bool) (xs ys : List Event)
    → all p xs ≡ true
    → all p ys ≡ true
    → all p (xs ++ ys) ≡ true
all-append p [] ys h k = k
all-append p (x ∷ xs) ys h k = ground (arith, all-append p xs ys)

append_item-all :
    (p : Event → Bool) (key : ℕ) (e : Event) (xs : List (ℕ × List Event))
    → p e ≡ true
    → all (λ x. all p x.1) xs ≡ true
    → all (λ x. all p x.1) (append_item key e xs) ≡ true
append_item-all p key e [] h k = ground arith
append_item-all p key e (x ∷ xs) h k =
    ground (arith, append_item-all p key e xs, all-append p x.1 (e ∷ []))

bundle_binary_events-all :
    (p : Event → Bool) (seen : List (ℕ × List Event)) (es : List Event)
    → all (λ e. not (is_bundle_binary_pseudo_event e) || p e) es ≡ true
    → all (λ x. all p x.1) seen ≡ true
    → all (λ x. all p x.1) (bundle_binary_events seen es) ≡ true
unfolding bundle_binary_events
bundle_binary_events-all p seen [] h k = k
bundle_binary_events-all p seen (e ∷ es) h k =
    bundle_binary_events-all p
      (if is_bundle_binary_pseudo_event e
        then with_hash e.file_bundle_hash (λ sha256 d. append_item sha256 e d) seen
        else seen)
      es (and-right _ _ h)
      (turn (is_bundle_binary_pseudo_event e) e.file_bundle_hash (and-left _ _ h))
  where
    turn :
        (pseudo : Bool) (o : Option ℕ)
        → (not pseudo || p e) ≡ true
        → all
            (λ x. all p x.1)
            (if pseudo then with_hash o (λ sha256 d. append_item sha256 e d) seen else seen)
          ≡ true
    turn false o f = k
    turn true none f = k
    turn true (some sha256) f = append_item-all p sha256 e seen f k

add_to_bundle_complete :
    (now : ℕ) (tables : Tables) (es : List Event) (o : Option Bundle)
    → all has_binary es ≡ true
    → are_complete tables ≡ true
    → Yields (λ t. are_complete t ≡ true) (add_to_bundle now tables es o)
unfolding add_to_bundle
add_to_bundle_complete now tables es none h k = k
add_to_bundle_complete now tables es (some b) h k =
    Yields-if (λ t. are_complete t ≡ true) (is_uploaded b) _ _ (λ uploaded. k)
      (λ missing.
        Yields-bind (λ s. Unit) (λ t. are_complete t ≡ true) (add_binaries es _) _
          (add_binaries-total es _ h)
          (λ s done.
            save_bundle_complete (complete_bundle now s b) tables.bundles
              (complete_bundle-is_complete now s b missing) k))

add_to_bundles_complete :
    (now : ℕ) (xs : List (ℕ × List Event)) (tables : Tables)
    → all (λ x. all has_binary x.1) xs ≡ true
    → are_complete tables ≡ true
    → Yields (λ t. are_complete t ≡ true) (add_to_bundles now xs tables)
unfolding add_to_bundles
add_to_bundles_complete now [] tables h k = k
add_to_bundles_complete now (x ∷ xs) tables h k =
    Yields-bind (λ t. are_complete t ≡ true) (λ t. are_complete t ≡ true) _ (add_to_bundles now xs)
      (add_to_bundle_complete now tables x.1 _ (and-left _ _ h) k)
      (λ t done. add_to_bundles_complete now xs t (and-right _ _ h) done)

-- Where each event on a binary of a bundle has the hash of the binary, an upload raises no error. If
-- the uploaded bundles had as many binaries as were announced, and at least one, they still have, and
-- so have those that the upload completes.
pub process_events-are_complete :
    (now : ℕ) (es : List Event) (tables : Tables)
    → all (λ e. not (is_bundle_binary_pseudo_event e) || has_binary e) es ≡ true
    → are_complete tables ≡ true
    → Yields (λ r. are_complete r.1 ≡ true) (process_events now es tables)
unfolding process_events create_bundle_binaries create_missing_bundles
process_events-are_complete now [] tables h k = k
process_events-are_complete now (e ∷ es) tables h k =
    Yields-bind (λ t. are_complete t ≡ true) (λ r. are_complete r.1 ≡ true) _ _
      (add_to_bundles_complete now _ _ (bundle_binary_events-all has_binary [] (e ∷ es) h refl)
        (create_bundles-are_complete (unknown_events tables (e ∷ es)) tables k))
      (λ t done. done)
