-- ===== src/Controller/Checksum/Sorting.antt =====
-- The checksum forgets the order in which a Secret's keys are ranged over.
use mathlib.Core.List.{Permᴰ}
use Prim.Native.String.{◌++◌}
use text.Mathlib.TextLemmas.{append_assoc, append-nil}
use showroom_msp_chat_ui.Prelude.{
  String, ◌≡◌, List, [], ◌∷◌, ℕ, suc, refl, ap, ◌∙◌, arith, length, none,
}
use showroom_msp_chat_ui.Controller.Checksum.{
  insert_sorted, sort_strings, hash_input, compute_secret_checksum, keys_of, first_chars,
}
use showroom_msp_chat_ui.Controller.Checksum.Order.{at_most_total, at_most_antisym, at_most_trans}
use showroom_msp_chat_ui.Dictionary.{Map, value_of, lookup}
use showroom_msp_chat_ui.Controller.Objects.{Secret, Meta}
use showroom_msp_chat_ui.HostnamePolicy.{hex}

insert_sorted_comm :
    (a b : String) (keys : List String)
    → insert_sorted a (insert_sorted b keys) ≡ insert_sorted b (insert_sorted a keys)
unfolding insert_sorted
insert_sorted_comm a b [] =
    ground (arith, at_most_total a b, at_most_total b a, at_most_antisym a b)
insert_sorted_comm a b (c ∷ keys) = ground (
  arith,
  insert_sorted_comm a b keys,
  at_most_total a b,
  at_most_total b a,
  at_most_antisym a b,
  at_most_trans b a c,
  at_most_trans a b c,
)

sort_strings-perm : {xs ys : List String} → Permᴰ xs ys → sort_strings xs ≡ sort_strings ys
unfolding sort_strings
sort_strings-perm Permᴰ.nil = refl
sort_strings-perm (Permᴰ.cons same perm) = rw (same, sort_strings-perm perm) refl
sort_strings-perm (Permᴰ.swap {a} {b} {a'} {b'} {l} same same') =
    rw (same, same') (insert_sorted_comm b' a' (sort_strings l))
sort_strings-perm (Permᴰ.trans perm perm') = sort_strings-perm perm ∙ sort_strings-perm perm'

length-insert_sorted :
    (key : String) (keys : List String) → length (insert_sorted key keys) ≡ suc (length keys)
unfolding insert_sorted
length-insert_sorted key [] = refl
length-insert_sorted key (first ∷ rest) = ground (arith, length-insert_sorted key rest)

length-sort_strings : (keys : List String) → length (sort_strings keys) ≡ length keys
unfolding sort_strings
length-sort_strings [] = refl
length-sort_strings (key ∷ keys) =
    length-insert_sorted key (sort_strings keys) ∙ ap suc (length-sort_strings keys)

length-keys_of : (m : Map String) → length (keys_of m) ≡ length m
length-keys_of [] = refl
length-keys_of (f ∷ m) = ap suc (length-keys_of m)

hash_input-same :
    (m n : Map String) (keys : List String)
    → ((key : String) → value_of key m ≡ value_of key n)
    → hash_input m keys ≡ hash_input n keys
unfolding hash_input
hash_input-same m n [] h = refl
hash_input-same m n (key ∷ keys) h = rw (h key, hash_input-same m n keys h) refl

-- Two Secrets that have the same keys, in whatever order these are ranged over, and the same value
-- under every key have the same checksum, so that pods are not rolled for the order of a map.
pub compute_secret_checksum-perm :
    (sha256 : String → List ℕ) (a b : Secret)
    → Permᴰ (keys_of a.contents) (keys_of b.contents)
    → ((key : String) → value_of key a.contents ≡ value_of key b.contents)
    → compute_secret_checksum sha256 a ≡ compute_secret_checksum sha256 b
unfolding compute_secret_checksum
compute_secret_checksum-perm sha256 a b perm same =
    let sorted = sort_strings-perm perm in
    let size : length a.contents ≡ length b.contents = omega (
      arith,
      length-keys_of a.contents,
      length-keys_of b.contents,
      length-sort_strings (keys_of a.contents),
      length-sort_strings (keys_of b.contents),
      ap length sorted,
    ) in
    rw
      (size, sorted, hash_input-same a.contents b.contents (sort_strings (keys_of b.contents)) same)
      refl

abbrev pub credentials : Meta → String → String → Secret
credentials meta key url = record {
  meta = meta;
  immutable = none;
  contents = ("OPENAI_API_KEY", key) ∷ ("OPENAI_API_URL", url) ∷ [];
}

same_text :
    (p q u v w : String)
    → p ++ ((u ++ (q ++ v)) ++ (q ++ (w ++ ""))) ≡ p ++ (u ++ (q ++ ((v ++ (q ++ w)) ++ "")))
same_text p q u v w = simp (append_assoc, append-nil)

-- Keys and values are hashed with nothing between them: credentials whose key holds the text
-- OPENAI_API_URL share their checksum with others that split the same text at another place, so a
-- change from one to the other rolls no pods.
pub compute_secret_checksum-ambiguous :
    (sha256 : String → List ℕ) (meta : Meta) (u v w : String)
    → compute_secret_checksum sha256 (credentials meta (u ++ ("OPENAI_API_URL" ++ v)) w)
      ≡ compute_secret_checksum sha256 (credentials meta u (v ++ ("OPENAI_API_URL" ++ w)))
unfolding compute_secret_checksum lookup
compute_secret_checksum-ambiguous sha256 meta u v w =
    ap (λ t. first_chars 16 (hex (sha256 t))) (same_text "OPENAI_API_KEY" "OPENAI_API_URL" u v w)
