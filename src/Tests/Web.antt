-- ===== src/Tests/Web.antt =====
-- The web UI with one session.
use thimble.Base.{
  ◌+◌, ◌*◌, ◌≤◌, arith, ◌≡◌, ◌⊎◌, refl, true, false, none, some, List, [], ◌∷◌, Bytes, codes,
  all_of, equal, mem,
}
use thimble.Base.Space.{trim_space}
use thimble.Base.Number.{pos}
use thimble.Errors.{ok}
use thimble.Dotenv.{validate_key}
use thimble.Web.{method_post, Request, Server, selected, random_token, rotate}
use thimble.Web.Secret.{Draws, unique_secret_keys}
use thimble.Web.Serve.{secret, serve, Guarded, serve-Guarded}
use thimble.Web.Keys.{Batch, unique_secret_keys-Batch}
use thimble.Store.Validate.{matches_name, name_rest}
use thimble.Dotenv.{matches_key, key_start, key_rest}
use thimble.Web.Command.{
  StoreInfo, is_plain, replace_quotes, shell_quote, join_args, retrieval_command,
}
use thimble.Web.Command.Words.{feed, first_token, shell_words}
use thimble.Web.Command.Retrieval.{shell_words-retrieval_command}
use thimble.Web.Rotation.{
  Watch, drain_once, begin_watch, on_timer, manual_rotate, begun, waited, fired, by_hand,
  begin_watch-Run,
}
use thimble.Tests.{plain_outside, world}

abbrev draws : Draws
draws n m bound = ok 0

abbrev server : Server
server = record {
  token = codes "token";
  loopback = true;
  can_set = true;
  current = selected;
  activity = false;
  world = world;
}

abbrev request : Request
request = record {
  method = method_post;
  host = codes "localhost:8787";
  tls = false;
  sec_fetch_site = codes "same-origin";
  origin = none;
  cookie = some (codes "token");
  form = some ((codes "action", codes "delete" ∷ []) ∷ []);
}

serve-Guarded_example :
    ((serve (λ s. s) (codes "localhost" ∷ []) plain_outside draws secret request server).1.world
      ≡ world)
    ⊎ Guarded (λ s. s) (codes "localhost" ∷ []) request server
serve-Guarded_example =
    serve-Guarded (λ s. s) (codes "localhost" ∷ []) plain_outside draws secret request server

abbrev staged : List Bytes
staged = codes "DB" ∷ codes " DB " ∷ codes "API" ∷ []

taken : unique_secret_keys staged ≡ ok (codes "DB" ∷ codes "API" ∷ [])
unfolding unique_secret_keys validate_key trim_space all_of mem equal
taken = refl

unique_secret_keys-Batch_example : Batch staged (codes "DB" ∷ codes "API" ∷ [])
unique_secret_keys-Batch_example =
    unique_secret_keys-Batch staged (codes "DB" ∷ codes "API" ∷ []) taken

abbrev mounted : StoreInfo
mounted = record { name = codes "work"; path = codes "/mnt/my $tore" }

shown :
    retrieval_command
      (codes "thimble")
      mounted
      (codes "it's")
      (codes "web")
      (codes "prod")
      (codes "A")
    ≡ codes "thimble --store '/mnt/my $tore' --identity 'it'\"'\"'s' get web prod A"
unfolding retrieval_command shell_quote join_args replace_quotes is_plain all_of equal
shown = refl

shell_words-retrieval_command_example :
    shell_words (
      retrieval_command
        (codes "thimble")
        mounted
        (codes "it's")
        (codes "web")
        (codes "prod")
        (codes "A"))
    ≡ some (
        codes "thimble"
        ∷ codes "--store"
        ∷ codes "/mnt/my $tore"
        ∷ codes "--identity"
        ∷ codes "it's"
        ∷ codes "get"
        ∷ codes "web"
        ∷ codes "prod"
        ∷ codes "A"
        ∷ [])
unfolding matches_name name_rest all_of matches_key key_start key_rest equal mem
shell_words-retrieval_command_example =
    shell_words-retrieval_command (codes "thimble") mounted (codes "it's") (codes "web")
      (codes "prod") (codes "A") refl refl refl refl refl refl refl

stray_quote : shell_words (codes "get it's") ≡ none
unfolding shell_words feed is_plain first_token mem equal
stray_quote = refl

reserved_word : shell_words (codes "if --store work") ≡ none
unfolding shell_words feed is_plain first_token mem equal
reserved_word = refl

-- a watch that begins at 5 and waits until its timer fires
abbrev watch : Watch
watch = record { server = drain_once server; now = 5; fires_at = 15; reads = 0 }

abbrev due : Watch
due = record watch { now = 15 }

abbrev rotated : Watch
rotated = (on_timer plain_outside 10 due).1

watch_begun : begin_watch (pos 10) server 5 0 ≡ some watch
unfolding begin_watch
watch_begun = refl

due_rotated : on_timer plain_outside 10 due ≡ (ok tt, rotated)
unfolding on_timer rotate random_token
due_rotated = refl

abbrev by_signal : Watch
by_signal = manual_rotate plain_outside rotated

begin_watch-Run_example :
    (by_signal.fires_at ≡ 15 + 10)
    × (5 + 1 * 10 ≤ 15)
    × (15 ≤ by_signal.now)
    × ((1 ≤ 1 + 1) ⊎ (by_signal.server.token ≡ server.token))
begin_watch-Run_example =
    begin_watch-Run plain_outside 10 1 1 15 5 0 server watch by_signal watch_begun (
      by_hand 1 0 15 rotated (
        fired 0 0 5 due rotated (waited 0 0 5 15 watch begun (omega arith)) (omega arith)
          due_rotated))
