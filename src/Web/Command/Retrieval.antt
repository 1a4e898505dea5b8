-- ===== src/Web/Command/Retrieval.antt =====
-- The words that a shell reads in a retrieval command are its arguments.
use thimble.Base.{
  ℕ, true, false, ◌≡◌, refl, ◌∙◌, some, List, [], ◌∷◌, arith, Bytes, codes, all_of, all_of_imp,
  equal, mem, All,
}
use thimble.Store.Validate.{name_rest, matches_name}
use thimble.Store.Validate.Names.{matches_name_rest}
use thimble.Dotenv.{key_start, key_rest, matches_key}
use thimble.Dotenv.RoundTrip.{matches_key_rest}
use thimble.Web.Command.{
  StoreInfo, join_args, store_argument, retrieval_command, is_plain, shell_quote,
}
use thimble.Web.Command.Words.{
  NoNul, reserved, shell_words, shell_words-unreserved, shell_quote-unreserved, IsSpelling,
  plain_text, shell_quote-IsSpelling, join_args_read,
}

name_rest_plain : (c : ℕ) → name_rest c ≡ true → is_plain c ≡ true
unfolding name_rest is_plain
name_rest_plain c h = ground arith

name-IsSpelling : (name : Bytes) → matches_name name ≡ true → IsSpelling name name
unfolding matches_name
name-IsSpelling [] h = cc
name-IsSpelling (c ∷ cs) h =
    plain_text c cs
      (all_of_imp name_rest is_plain name_rest_plain (c ∷ cs) (matches_name_rest (c ∷ cs) h))

key_rest_plain : (c : ℕ) → key_rest c ≡ true → is_plain c ≡ true
unfolding key_start key_rest is_plain
key_rest_plain c h = ground arith

key-IsSpelling : (key : Bytes) → matches_key key ≡ true → IsSpelling key key
unfolding matches_key
key-IsSpelling [] h = cc
key-IsSpelling (c ∷ cs) h =
    plain_text c cs
      (all_of_imp key_rest is_plain key_rest_plain (c ∷ cs) (matches_key_rest (c ∷ cs) h))

store_flag : IsSpelling (codes "--store") (codes "--store")
unfolding all_of is_plain
store_flag = plain_text b'-' (codes "-store") refl

identity_flag : IsSpelling (codes "--identity") (codes "--identity")
unfolding all_of is_plain
identity_flag = plain_text b'-' (codes "-identity") refl

get_word : IsSpelling (codes "get") (codes "get")
unfolding all_of is_plain
get_word = plain_text b'g' (codes "et") refl

-- The identity's flag, where there is an identity.
abbrev pub identity_words : Bytes → List Bytes → List Bytes
identity_words [] rest = rest
identity_words (c ∷ cs) rest = codes "--identity" ∷ (c ∷ cs) ∷ rest

-- The arguments behind the store and the identity, each with the word that it spells.
abbrev spelled_names : Bytes → Bytes → Bytes → List (Bytes × Bytes)
spelled_names app env key = (codes "get", codes "get") ∷ (app, app) ∷ (env, env) ∷ (key, key) ∷ []

abbrev AllSpelled : List (Bytes × Bytes) → Type 0
AllSpelled ps = All (λ p. IsSpelling p.0 p.1) ps

names_read :
    (app env key : Bytes)
    → matches_name app ≡ true
    → matches_name env ≡ true
    → matches_key key ≡ true
    → AllSpelled (spelled_names app env key)
names_read app env key ha he hk =
    (get_word, (name-IsSpelling app ha, (name-IsSpelling env he, (key-IsSpelling key hk, tt))))

-- For a name of an application, a name of an environment and a key that the store accepts, a POSIX
-- shell without aliases reads the retrieval command as these words: the executable, --store with the
-- store's path or its name, --identity with the identity if there is one, get, and the three names.
-- That holds for every text of the executable, the store and the identity without NUL, unless the
-- executable is a reserved word of the shell.
pub shell_words-retrieval_command :
    (executable : Bytes) (active : StoreInfo) (identity app env key : Bytes)
    → mem executable reserved ≡ false
    → NoNul executable
    → NoNul (store_argument active)
    → NoNul identity
    → matches_name app ≡ true
    → matches_name env ≡ true
    → matches_key key ≡ true
    → shell_words (retrieval_command executable active identity app env key)
      ≡ some (
          executable
          ∷ codes "--store"
          ∷ store_argument active
          ∷ identity_words identity (codes "get" ∷ app ∷ env ∷ key ∷ []))
unfolding retrieval_command equal join_args
shell_words-retrieval_command executable active [] app env key free ne ns ni ha he hk =
    let store = store_argument active in
    shell_words-unreserved _ (shell_quote-unreserved executable _ free)
    ∙ join_args_read
        ((codes "--store", codes "--store")
          ∷ (shell_quote store, store)
          ∷ spelled_names app env key)
        (shell_quote executable) executable [] (shell_quote-IsSpelling executable ne)
        (store_flag, (shell_quote-IsSpelling store ns, names_read app env key ha he hk))
shell_words-retrieval_command executable active (c ∷ cs) app env key free ne ns ni ha he hk =
    let store = store_argument active in
    shell_words-unreserved _ (shell_quote-unreserved executable _ free)
    ∙ join_args_read
        ((codes "--store", codes "--store")
          ∷ (shell_quote store, store)
          ∷ (codes "--identity", codes "--identity")
          ∷ (shell_quote (c ∷ cs), c ∷ cs)
          ∷ spelled_names app env key)
        (shell_quote executable) executable [] (shell_quote-IsSpelling executable ne)
        (
          store_flag,
          (
            shell_quote-IsSpelling store ns,
            (identity_flag, (shell_quote-IsSpelling (c ∷ cs) ni, names_read app env key ha he hk)),
          ),
        )
