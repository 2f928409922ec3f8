-- ===== src/Merkle/Hasher.antt =====
-- The class `Hasher` of zentral/utils/mt_models.py. The SHA-1 of a text's UTF-8 is an argument, and
-- so is `make_naive`. A date is its ISO text, and a number is its `str`.
pub mod Order
pub mod Adding
pub mod Exchange
use zentral.Merkle.Results.{assertion_error, value_error, Result, ok, err, ◌>>=◌}
use Prim.Native.String.{◌++◌ as ◌<>◌, count}
use zentral.Base.{
  Bool, List, Option, String, [], all, contains, false, if◌then◌else◌, nat_beq, none, some, true,
  ◌++◌, ◌==◌, ◌∷◌, nat_eq, string_eq, option_eq, bool_eq,
}
use zentral.Merkle.Sorting.{sorted}

-- What a field can be given. `texts` is a list, an empty one too, of texts and `mixed` a list with
-- another item in it; `unsupported` is a dictionary that is not empty, a float, and so on.
pub data Value : Type 0 where
  null empty_dict mixed unsupported : Value
  integer naive aware text : String → Value
  texts : List String → Value

-- What is stored of a field.
pub data Entry : Type 0 where
  one : String → Entry
  many : List String → Entry

-- `self.fields`, in the order in which they were added
abbrev pub Fields : Type 0
Fields = List (String × Entry)

module _ {V : Type 0} where
  abbrev pub keys : List (String × V) → List String
  keys [] = []
  keys ((k, v) ∷ rest) = k ∷ keys rest

  abbrev pub lookup : String → List (String × V) → Option V
  lookup k [] = none
  lookup k ((j, v) ∷ rest) = if j == k then some v else lookup k rest

unfoldable pub is_empty_value : Value → Bool
is_empty_value null = true
is_empty_value empty_dict = true
is_empty_value (texts []) = true
is_empty_value _ = false

unfoldable pub is_hash : String → Bool
is_hash e = nat_beq (count e) 40

-- the entry of a value that is not empty
unfoldable pub entry_of : (String → String) → Value → Result Entry
unfolding is_hash
entry_of make_naive (integer v) = ok (one v)
entry_of make_naive (aware v) = ok (one (make_naive v))
entry_of make_naive (naive v) = ok (one v)
entry_of make_naive (texts l) = if all is_hash l then ok (many l) else err assertion_error
entry_of make_naive mixed = err assertion_error
entry_of make_naive (text v) = ok (one v)
entry_of make_naive _ = err value_error

unfoldable pub add_field : (String → String) → String → Value → Fields → Result Fields
unfolding is_empty_value entry_of
add_field make_naive k v fields =
    if k == ""
    then err value_error
    else if contains (keys fields) k
    then err value_error
    else if is_empty_value v
    then ok fields
    else entry_of make_naive v >>= λ e. ok (fields ++ ((k, e) ∷ []))

abbrev pub join : List String → String
join [] = ""
join (s ∷ ss) = s <> join ss

-- what is fed to the digest for one key
unfoldable pub entry_text : Option Entry → String
entry_text none = ""
entry_text (some (one v)) = v
entry_text (some (many l)) = join (sorted l)

unfoldable pub digest_texts : List String → Fields → String
unfolding entry_text
digest_texts [] fields = ""
digest_texts (k ∷ ks) fields = k <> (entry_text (lookup k fields) <> digest_texts ks fields)

unfoldable pub hexdigest : (String → String) → Fields → String
unfolding digest_texts sorted
hexdigest sha1 fields = sha1 (digest_texts (sorted (keys fields)) fields)
