-- ===== src/Tests/Session.antt =====
-- Runs of age and of commands, with a terminal and files around them.
use thimble.Base.{
  refl, ◌⊎◌, true, false, none, some, List, [], ◌∷◌, Bytes, codes, mem, equal, if◌then◌else◌,
}
use thimble.Errors.{ok, Ensures}
use thimble.Age.{printed, Platform, Tool, Process, decrypt}
use thimble.Age.Safe.{RanOnce, decrypt-RanOnce}
use thimble.Catalog.{directory}
use thimble.Cli.Arguments.{exited}
use thimble.Cli.Terminal.{Session, done}
use thimble.Cli.Peers.{Neighbours, run_peer_join}
use thimble.Cli.Peers.Join.{MayReplace, Refused, run_peer_join-Safe}
use thimble.Cli.Recipient.{run_recipient_add}
use thimble.Cli.Recipient.Gated.{Admitted, run_recipient_add-GateOpened}
use thimble.Cli.Main.{Host, run}
use thimble.Cli.Main.Pinned.{Untouched, RanStore, RanPinned, run-Pinned}
use thimble.Tests.{plain_outside, world}
use thimble.Tests.Gate.{solo, signed_world, long_recipient, loaded}
use thimble.Tests.Peer.{network, disk}

-- a digest that is the first byte, and a program that prints what it reads
abbrev os : Platform
os = record {
  look_path = λ name. some (codes "/usr/bin/age");
  contents = λ path. some (codes "A");
  digest = λ b. b;
  mode = λ path. some 384;
  timeout_var = [];
  positive_duration = λ s. none;
  fold = λ s. s;
  run = λ n timeout i. printed i.stdin;
}

abbrev tool : Tool
tool = record {
  binary = codes "/usr/bin/age";
  identity = codes "/home/key.txt";
  allow_unsafe = false;
  verbose = true;
}

abbrev process : Process
process = record { announced = false; said = []; runs = [] }

decrypt-RanOnce_example :
    RanOnce os tool
      (codes "web/prod.env.age")
      process
      (decrypt os tool (codes "web/prod.env.age") process)
decrypt-RanOnce_example = decrypt-RanOnce os tool (codes "web/prod.env.age") process

abbrev pub session : Session
session = record { world = world; disk = disk; stdout = []; stderr = [] }

abbrev around : Neighbours
around = record {
  net = network;
  root = codes "/store";
  wide = λ s. s;
  pad = λ n s. s;
  manifest_bytes = λ f. 300;
  bundle_paths = codes "web/prod.env.age" ∷ [];
  bad_pattern = false;
  mirror = λ n files. files;
  is_stale = λ t. false;
}

run_peer_join-Safe_example :
    Refused (run_peer_join around (codes "ops@host:/srv/store" ∷ []) session) session
    ⊎ MayReplace around (codes "ops@host:/srv/store" ∷ []) session
run_peer_join-Safe_example = run_peer_join-Safe around (codes "ops@host:/srv/store" ∷ []) session

abbrev pub host : Host
host = record {
  os = os;
  places = record {
    getenv = λ name. if equal name (codes "THIMBLE_AGE_SHA256") then codes "41" else [];
    abs = λ path. some (codes "/work/secrets");
    home = some (codes "/home/me");
    config = some (codes "/home/me/.config");
    lstat = λ path. some directory;
  };
  age = λ cfg path. plain_outside;
  terminal = record {
    stdin_is_terminal = false;
    stdout_is_terminal = false;
    password = ok [];
    piped = ok (codes "2\n");
    produce = λ argv. record { output = []; errors = []; succeeded = true };
    consume = λ c. record { output = []; errors = []; failure = none };
  };
  around = λ cfg. around;
  parse_int = λ s. none;
  environ = [];
  children = λ c. exited 0;
  tabulate = λ rows. [];
  file = λ w. [];
  version = codes "thimble vdev";
  usage_text = codes "usage";
  store = λ cfg args. done tt;
  doctor = λ cfg args. done tt;
  web = λ cfg args. done tt;
}

abbrev listing : List Bytes
listing = codes "list" ∷ codes "web" ∷ codes "prod" ∷ []

run-Pinned_example :
    Untouched session (run host listing session).1
    ⊎ (RanStore host listing session (run host listing session)
        ⊎ RanPinned host listing session (run host listing session))
unfolding equal
run-Pinned_example = run-Pinned host listing session refl

abbrev signed_session : Session
signed_session = record session { world = signed_world }

abbrev addition : List Bytes
addition = codes "web" ∷ codes "prod" ∷ long_recipient ∷ []

run_recipient_add-GateOpened_example :
    Ensures
      (λ _.
        Admitted plain_outside addition solo signed_world
          (run_recipient_add plain_outside addition signed_session).1.world)
      (run_recipient_add plain_outside addition signed_session).0
unfolding mem equal
run_recipient_add-GateOpened_example =
    run_recipient_add-GateOpened plain_outside addition solo signed_session loaded refl
