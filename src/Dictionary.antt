-- ===== src/Dictionary.antt =====
-- Go's maps with text keys, as association lists; the order of a range over a map is the list's,
-- and no definition of the development gives that order a meaning.
use mathlib.Core.List.{◌++◌}
use showroom_msp_chat_ui.Prelude.{
  String, ◌≡◌, refl, Bool, Option, none, some, List, [], ◌∷◌, arith, ◌==◌, eq_iff, if◌then◌else◌,
  is_some,
}

abbrev pub Map {ℓ} : Type ℓ → Type ℓ
Map V = List (String × V)

module _ {ℓ} {V : Type ℓ} where
  -- m[key], with whether the key is there
  unfoldable pub lookup : String → Map V → Option V
  lookup key [] = none
  lookup key ((name, value) ∷ rest) = if name == key then some value else lookup key rest

  -- m[key] = value
  unfoldable pub insert : String → V → Map V → Map V
  insert key value [] = (key, value) ∷ []
  insert key value ((name, old) ∷ rest) =
      let later = insert key value rest in
      if name == key then (key, value) ∷ rest else (name, old) ∷ later

  -- delete(m, k)
  unfoldable pub remove : String → Map V → Map V
  remove k [] = []
  remove k ((j, w) ∷ m) = let rest = remove k m in if j == k then rest else (j, w) ∷ rest

  abbrev pub has : String → Map V → Bool
  has k m = is_some (lookup k m)

  -- for k, v := range more { m[k] = v }
  unfoldable pub insert_all : Map V → Map V → Map V
  insert_all [] m = m
  insert_all ((k, v) ∷ more) m = insert_all more (insert k v m)

  pub lookup-insert :
      (new key : String) (value : V) (map : Map V)
      → lookup key (insert new value map) ≡ (if new == key then some value else lookup key map)
  unfolding insert lookup
  lookup-insert new key value [] = refl
  lookup-insert new key value ((name, old) ∷ rest) =
      ground
        (arith, lookup-insert new key value rest, eq_iff name key, eq_iff name new, eq_iff new key)

  pub lookup-remove :
      (k j : String) (m : Map V) → lookup j (remove k m) ≡ (if k == j then none else lookup j m)
  unfolding lookup remove
  lookup-remove k j [] = ground arith
  lookup-remove k j ((i, w) ∷ m) =
      ground (arith, eq_iff k j, eq_iff i k, eq_iff i j, lookup-remove k j m)

  -- A new key goes to the end.
  pub insert_new :
      (k : String) (v : V) (m : Map V) → lookup k m ≡ none → insert k v m ≡ m ++ (k, v) ∷ []
  unfolding lookup insert
  insert_new k v [] h = refl
  insert_new k v ((j, w) ∷ m) h = ground (arith, insert_new k v m)

  pub lookup-append :
      (k : String) (m n : Map V)
      → lookup k (m ++ n) ≡ elim (lookup k m) [ none ↦ lookup k n | some v ↦ some v ]
  unfolding lookup
  lookup-append k [] n = refl
  lookup-append k ((j, w) ∷ m) n = ground (arith, lookup-append k m n)

  -- Putting in the value that is there already changes nothing.
  pub insert_same : (k : String) (v : V) (m : Map V) → lookup k m ≡ some v → insert k v m ≡ m
  unfolding lookup insert
  insert_same k v [] h = cc
  insert_same k v ((j, w) ∷ m) h = ground (arith, eq_iff j k, insert_same k v m)

pub ruleset map_laws = (lookup-insert, lookup-remove)

-- m[k], where a missing key reads as the empty text
abbrev pub value_of : String → Map String → String
value_of k m = elim (lookup k m) [ none ↦ "" | some v ↦ v ]
