-- ===== src/Tests/Catalog.antt =====
-- Phrases from a fixed source, and stores in an empty directory.
use thimble.Base.{
  ◌≤◌, ◌≡◌, refl, true, none, List, [], ◌∷◌, arith, Bytes, codes, All, all_of, equal, has_prefix,
  length, split_at,
}
use thimble.Errors.{ok}
use thimble.World.{missing}
use thimble.Passphrase.{Draw, generate_from}
use thimble.Passphrase.Strength.{Draws, is_letter_or_dash, generate_from-long}
use thimble.Store.Validate.{validate_name}
use thimble.Catalog.{Selection, Tree, clean_managed_name, resolve_name, create}
use thimble.Catalog.Paths.{segments, clean, rel, join, rooted}
use thimble.Catalog.Paths.Segments.{IsPlain}
use thimble.Catalog.Within.{Below, resolve_name-Below}
use thimble.Catalog.Created.{Created, create-Created}

abbrev first_words : Draw
first_words n bound = ok 0

first_words_draw : Draws first_words
first_words_draw = record { value = λ n bound. 0; drawn = λ n bound h. (refl, omega (arith, h)) }

generate_from-long_example :
    (phrase : Bytes) × (generate_from first_words 0 ≡ ok phrase)
    × (35 ≤ length phrase)
    × (all_of is_letter_or_dash phrase ≡ true)
generate_from-long_example = generate_from-long first_words 0 first_words_draw

abbrev root : List Bytes
root = codes "home" ∷ codes "stores" ∷ []

home_plain : IsPlain (codes "home")
unfolding equal all_of
home_plain = record { not_empty = refl; not_dot = refl; not_dots = refl; no_slash = refl }

stores_plain : IsPlain (codes "stores")
unfolding equal all_of
stores_plain = record { not_empty = refl; not_dot = refl; not_dots = refl; no_slash = refl }

root_plain : All IsPlain root
root_plain = (home_plain, (stores_plain, tt))

abbrev selection : Selection
selection = record {
  name = codes "team/api";
  path = codes "/home/stores/team/api";
  source = codes "web UI";
  managed = true;
}

resolved : resolve_name (rooted root) (codes "web UI") (codes "team/api") ≡ ok selection
unfolding resolve_name clean_managed_name segments split_at equal clean validate_name all_of rel
    join has_prefix
resolved = refl

resolve_name-Below_example : Below root (codes "team/api") selection
resolve_name-Below_example =
    resolve_name-Below (codes "home") (codes "stores" ∷ []) (codes "web UI") (codes "team/api")
      selection root_plain resolved

abbrev empty_tree : Tree
empty_tree = record { nodes = λ p. none; manifests = λ p. missing; faults = [] }

created : (create (rooted root) (codes "team/api") empty_tree).0 ≡ ok selection
unfolding create clean_managed_name segments split_at equal clean validate_name all_of rel join
    has_prefix
created = refl

create-Created_example :
    Created root (codes "team/api") empty_tree (create (rooted root) (codes "team/api") empty_tree)
create-Created_example =
    create-Created (codes "home") (codes "stores" ∷ []) (codes "team/api") empty_tree selection
      root_plain created
