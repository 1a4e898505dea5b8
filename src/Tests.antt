-- ===== src/Tests.antt =====
-- The setting of the tests: programs for age, SHA-256 and the clock that can be run, and a store
-- with one namespace and a pending addition that two operators have signed.
pub mod Text
pub mod Gate
pub mod Commits
pub mod Peer
pub mod Catalog
pub mod Web
pub mod Cli
pub mod Audit
pub mod Session
pub mod SetGet
use thimble.Base.{ℕ, Bool, true, false, Option, none, some, List, [], ◌∷◌, ◌++◌, Bytes, codes}
use thimble.Base.Number.{pos}
use thimble.Outside.{Outside, thumbprint}
use thimble.Errors.{ok}
use thimble.World.{World, File, missing, holds, Origin, provision, set}
use thimble.Quorum.Policy.{Operator, Policy}
use thimble.Quorum.Meta.{Meta}
use thimble.Quorum.Message.{canonical_message}
use thimble.Quorum.Protocol.{VerifyInputs, sig_suffix}
use thimble.Store.Manifest.{EnvManifest, Manifest}
use thimble.Store.Commit.{CommitInputs}

-- age that writes the text itself, and a digest that is the text itself
abbrev pub plain_outside : Outside
plain_outside = record {
  encrypt = λ n recipients plain. ok plain;
  decrypt = λ cipher. ok cipher;
  digest = λ b. b;
  random = λ n size. ok (n ∷ []);
  clock = λ n. codes "2024-01-01T00:00:00Z";
  identity_file = none;
  audited = true;
}

abbrev pub ada : Operator
ada = record { name = codes "ada"; recipient = codes "age1ada1" }

abbrev pub bob : Operator
bob = record { name = codes "bob"; recipient = codes "age1bob2" }

abbrev pub policy : Policy
policy = record { m = pos 2; operators = ada ∷ bob ∷ [] }

abbrev pub pending_meta : Meta
pending_meta = record {
  version = 1;
  app = codes "web";
  env = codes "prod";
  new_recipient = codes "age1new3";
  bundle_sha = codes "5f";
  nonce = codes "00";
  verifier_recipient = codes "age1ada1";
  policy_operators = ada ∷ bob ∷ [];
  quorum_m = pos 2;
}

abbrev pub message : Bytes
message =
    canonical_message (codes "web") (codes "prod") (codes "age1new3") (codes "5f") (codes "00")

abbrev pub ada_thumb : Bytes
ada_thumb = codes "6167653161646131"

abbrev pub bob_thumb : Bytes
bob_thumb = codes "61676531626f6232"

abbrev pub inputs : VerifyInputs
inputs = record {
  app = codes "web";
  env = codes "prod";
  new_recipient = codes "age1new3";
  bundle_sha = codes "5f";
  policy = policy;
}

abbrev pub entry : EnvManifest
entry = record {
  format = codes "dotenv";
  file = codes "web/prod.env.age";
  recipients = codes "age1qqqqqqqqqqqqqqqqqqqqqqqqqqqqqqqqqqqqqqqqqqqqqqqqqqqqqqq" ∷ [];
  created_at = [];
  updated_at = [];
  version = 7;
  bundle_sha256 = [];
}

abbrev pub manifest : Manifest
manifest = record {
  version = 1;
  apps = (codes "web", record { environments = (codes "prod", entry) ∷ [] }) ∷ [];
}

abbrev pub world_with : List Bool → World
world_with faults = record {
  manifest = holds manifest;
  bundles = λ path. some (codes "A=1\n");
  origins = λ path. missing;
  policy = some (
      codes
        "[policy]\nquorum_m = 1\n[[operators]]\nname = \"carol\"\nrecipient = \"age1cccccccccccccccccccccccccccccccccccccccccccccccccccccc\"\n");
  meta = holds pending_meta;
  pending =
      (ada_thumb ++ sig_suffix, message)
      ∷ (bob_thumb ++ sig_suffix, message)
      ∷ (codes "meta.json", [])
      ∷ [];
  log = [];
  notices = [];
  faults = faults;
  effects = 0;
}

abbrev pub world : World
world = world_with []

-- an edit that sets A to 2, from version 7 to version 8
abbrev pub commit_inputs : CommitInputs
commit_inputs = record {
  app = codes "web";
  env = codes "prod";
  meta = record entry { version = 8 };
  loaded_version = 7;
  prior_sha = [];
  plain = codes "A=2\n";
  origins = (codes "A", set) ∷ [];
}
