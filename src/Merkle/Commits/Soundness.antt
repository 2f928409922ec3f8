-- ===== src/Merkle/Commits/Soundness.antt =====
-- The rows of a store: their hashes are those of their fields, and no two rows of a table share one.
use zentral.Base.{
  All, Bool, List, String, [], arith, false, none, not, refl, string_eq, true, ℕ, ◌&&◌, ◌++◌, ◌==◌,
  ◌∷◌, ◌≡◌, nat_eq, option_eq, bool_eq,
}
use zentral.Merkle.Results.{ok}
use zentral.Merkle.Trees.{Tree}
use zentral.Merkle.Objects.{Object, hash}
use zentral.Merkle.Commits.{Store, Row, Environment, get, commit, is_there}
use zentral.Merkle.Commits.Steps.{Ends_at}
use zentral.Merkle.Commits.Keeps.{commit-Keeps}

abbrev pub has_unique_hashes : Store → Bool
has_unique_hashes [] = true
has_unique_hashes (row ∷ rows) =
    not (is_there (get row.model row.object.mt_hash rows)) && has_unique_hashes rows

-- Each row is saved under the hash of its fields, and no other row of its table has that hash.
unfoldable pub IsSound : Environment → Store → Type 0
IsSound env st =
    All
      (λ row.
        hash env.sha1 env.make_naive (env.models row.model) row.object ≡ ok row.object.mt_hash)
      st
    × (has_unique_hashes st ≡ true)

All-append :
    {A : Type 0} (P : A → Type 0) (xs : List A) (a : A) → All P xs → P a → All P (xs ++ (a ∷ []))
All-append P [] a h p = (p, tt)
All-append P (x ∷ xs) a (h, hs) p = (h, All-append P xs a hs p)

get-append_other :
    (model h : String) (rows : Store) (row : Row)
    → is_there (get model h rows) ≡ false
    → ((row.model == model) && (row.object.mt_hash == h)) ≡ false
    → is_there (get model h (rows ++ (row ∷ []))) ≡ false
unfolding get
get-append_other model h [] row g e = ground arith
get-append_other model h (r ∷ rows) row g e = ground (arith, get-append_other model h rows row)

has_unique_hashes-append :
    (st : Store) (row : Row)
    → has_unique_hashes st ≡ true
    → get row.model row.object.mt_hash st ≡ none
    → has_unique_hashes (st ++ (row ∷ [])) ≡ true
unfolding get
has_unique_hashes-append [] row u fresh = refl
has_unique_hashes-append (r ∷ rows) row u fresh = ground (
  arith,
  has_unique_hashes-append rows row,
  get-append_other r.model r.object.mt_hash rows row,
  string_eq.test_iff r.model row.model,
  string_eq.test_iff row.model r.model,
  string_eq.test_iff r.object.mt_hash row.object.mt_hash,
  string_eq.test_iff row.object.mt_hash r.object.mt_hash,
)

module _ (env : Environment) where
  -- A commit that returns leaves each row saved under the hash of its fields, with no two rows of a
  -- table under one hash, if it was so before and other processes keep it so.
  pub commit-IsSound :
      ((st : Store) → IsSound env st → IsSound env (env.meanwhile st))
      → (depth : ℕ) (model : String) (tree : Tree) (st after : Store) (obj : Object)
        (created : Bool)
      → IsSound env st
      → commit env depth model tree st ≡ (after, ok (obj, created))
      → IsSound env after
  unfolding IsSound
  commit-IsSound others depth model tree st after obj created sound returns =
      Ends_at (λ s o. IsSound env s) (commit env depth model tree st) after (obj, created)
        (commit-Keeps (IsSound env) env others
          (λ name new s i fresh right. (
            All-append _ s (record { model = name; object = new }) i.0 right,
            has_unique_hashes-append s (record { model = name; object = new }) i.1 fresh,
          ))
          depth model tree st sound)
        returns
