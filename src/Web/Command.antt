-- ===== src/Web/Command.antt =====
-- internal/web/commands.go: the command that the page shows for each secret.
pub mod Words
pub mod Retrieval
use thimble.Base.{
  ℕ, Bool, true, false, not, ◌&&◌, ◌||◌, List, [], ◌∷◌, ◌++◌, ◌==◌, if◌then◌else◌, Bytes, codes,
  all_of, equal,
}
use thimble.Store.Validate.{is_alphanumeric}

-- What stores.go keeps of a store, as far as the command reads it.
pub record StoreInfo : Type 0 where
  pub name : Bytes
  pub path : Bytes

-- A rune that needs no quotes. A rune behind ASCII is made of bytes that are not plain either.
unfoldable pub is_plain : ℕ → Bool
is_plain c = is_alphanumeric c || c == b'/' || c == b'.' || c == b'_' || c == b'-'

-- strings.ReplaceAll(value, "'", "'\"'\"'")
unfoldable pub replace_quotes : Bytes → Bytes
replace_quotes [] = []
replace_quotes (c ∷ cs) =
    let rest = replace_quotes cs in
    if c == b'\'' then b'\'' ∷ b'"' ∷ b'\'' ∷ b'"' ∷ b'\'' ∷ rest else c ∷ rest

abbrev pub in_quotes : Bytes → Bytes
in_quotes value = b'\'' ∷ (replace_quotes value ++ (b'\'' ∷ []))

unfoldable pub shell_quote : Bytes → Bytes
unfolding replace_quotes is_plain
shell_quote value = if not (equal value []) && all_of is_plain value then value else in_quotes value

-- strings.Join(first ∷ rest, " ")
unfoldable pub join_args : List Bytes → Bytes → Bytes
join_args [] first = first
join_args (next ∷ rest) first = first ++ (b' ' ∷ join_args rest next)

abbrev pub store_argument : StoreInfo → Bytes
store_argument active = if equal active.path [] then active.name else active.path

abbrev pub with_identity : Bytes → List Bytes → List Bytes
with_identity identity args =
    if equal identity [] then args else codes "--identity" ∷ shell_quote identity ∷ args

unfoldable pub retrieval_command : Bytes → StoreInfo → Bytes → Bytes → Bytes → Bytes → Bytes
unfolding shell_quote join_args
retrieval_command executable active identity app env key =
    join_args
      (codes "--store"
        ∷ shell_quote (store_argument active)
        ∷ with_identity identity (codes "get" ∷ app ∷ env ∷ key ∷ []))
      (shell_quote executable)
