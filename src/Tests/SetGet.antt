-- ===== src/Tests/SetGet.antt =====
-- A value that is set on the command line, and read back there.
use thimble.Base.{
  ◌≡◌, refl, sym, true, false, some, List, [], ◌∷◌, Bytes, codes, ◌++◌, All, mem, equal, arith,
  all_of,
}
use thimble.Base.Dict.{get, put, keys}
use thimble.Errors.{ok}
use thimble.World.{next_fails, set}
use thimble.World.Ends.{after_write}
use thimble.Dotenv.{Values, matches_key, encode_line, quote_value}
use thimble.Dotenv.RoundTrip.{Fits}
use thimble.Store.Edit.{read_env}
use thimble.Cli.Terminal.{Session}
use thimble.Cli.Basic.{Target, parse_secret_args, run_set, run_get}
use thimble.Cli.Basic.RoundTrip.{run_get-run_set}
use thimble.Tests.{plain_outside, world, entry}
use thimble.Tests.Session.{host, session}

abbrev setting : List Bytes
setting = codes "web" ∷ codes "prod" ∷ codes "B" ∷ []

abbrev behind : Session
behind = (run_set plain_outside host.terminal setting session).1

abbrev target : Target
target = record { app = codes "web"; env = codes "prod"; key = codes "B" }

abbrev reader : Bytes
reader = codes "age1qqqqqqqqqqqqqqqqqqqqqqqqqqqqqqqqqqqqqqqqqqqqqqqqqqqqqqq"

abbrev before : Values
before = (codes "A", codes "1") ∷ []

setting_parsed : parse_secret_args (codes "set") setting ≡ ok (set, target)
unfolding parse_secret_args equal thimble.Base.has_prefix thimble.Store.Rotate.parse_origin
    thimble.Base.Space.trim_space
setting_parsed = refl

setting_run :
    (run_set plain_outside host.terminal setting session ≡ (ok tt, behind))
    × (next_fails behind.world.faults ≡ false)
unfolding run_set thimble.Cli.Terminal.◌>>=◌ thimble.Cli.Terminal.returns thimble.Base.has_prefix
    thimble.Store.Rotate.parse_origin thimble.Base.Space.trim_line_end thimble.Cli.Terminal.done
    thimble.Cli.Terminal.on_store thimble.Cli.Terminal.print thimble.Store.Secrets.set_secret
    thimble.Store.Edit.rewrite_env_with_origins parse_secret_args thimble.Cli.Basic.secret_input
    thimble.Store.Secrets.set_edit thimble.Store.Bundle.load_origins
    thimble.Store.Bundle.decode_origins thimble.Store.Edit.now thimble.World.tick
    thimble.Store.Commit.commit_env_with_origins thimble.Store.Bundle.encrypt_and_write
    thimble.Store.Validate.validate_recipients thimble.Store.Validate.clean_recipients
    thimble.Store.Validate.clean_recipient thimble.Store.Validate.check_recipient
    thimble.Store.Validate.is_age_recipient thimble.Quorum.Protocol.age_encrypt
    thimble.Store.Bundle.put_bundle thimble.World.on_failure thimble.Store.Bundle.save_origins
    thimble.Store.Bundle.put_origins thimble.Store.Commit.announce thimble.Audit.Ledger.append
    thimble.Audit.Ledger.operator_thumbprint thimble.Audit.Ledger.public_recipient
    thimble.Audit.Ledger.record_event thimble.Audit.Ledger.record_event_with_signers keys
    thimble.Base.Sort.bytes_lt thimble.Base.Sort.insert_sorted thimble.Base.Sort.sort_strings
    thimble.Base.Space.drop_while thimble.Cli.Basic.split_origin_from thimble.Dotenv.encode
    thimble.Dotenv.encode_keys encode_line quote_value thimble.Dotenv.is_safe_rune
    thimble.Store.Bundle.origins_path thimble.Store.Bundle.save_manifest
    thimble.Store.Edit.prune_origins thimble.Store.Manifest.merge_into
    thimble.Store.Validate.clean_each thimble.Store.Validate.is_bech32 thimble.World.notify
    thimble.Outside.thumbprint thimble.World.◌>>=◌ thimble.Store.Edit.find
    thimble.Store.Edit.validate_names thimble.World.lift thimble.Store.Validate.validate_name
    thimble.Base.all_of thimble.Store.Edit.load_env_for_edit thimble.World.acquire_lock
    thimble.Store.Bundle.load_manifest thimble.Store.Bundle.decode_manifest
    thimble.World.require_some thimble.Store.Manifest.env_from get equal thimble.World.pure
    thimble.Store.Bundle.decrypt thimble.World.gets put thimble.Base.Space.space1
    thimble.Base.Space.space2 thimble.Base.Space.space3 thimble.Base.Space.trim_by
    thimble.Base.Space.trim_space thimble.Base.contains thimble.Base.cut_at thimble.Base.push_byte
    thimble.Dotenv.drop_cr thimble.Dotenv.Scan.drop_last_cr thimble.Dotenv.scan_lines
    thimble.Dotenv.assign_parts thimble.Dotenv.key_rest thimble.Dotenv.key_start
    thimble.Dotenv.matches_key thimble.Dotenv.parse thimble.Dotenv.parse_assignment
    thimble.Dotenv.parse_line thimble.Dotenv.parse_lines thimble.Dotenv.parse_value
    thimble.Dotenv.validate_key thimble.Outside.hex thimble.Outside.sha256_hex
    thimble.Store.Validate.contains_dots thimble.Store.Validate.matches_name
    thimble.Store.Validate.name_rest thimble.World.attempt thimble.World.check thimble.World.raise
setting_run = (refl, refl)

before_read :
    read_env plain_outside (codes "web") (codes "prod") world
    ≡ (ok (before, entry), after_write world)
unfolding read_env thimble.World.◌>>=◌ thimble.Store.Edit.find thimble.Store.Edit.validate_names
    thimble.World.lift thimble.Store.Validate.validate_name thimble.Base.all_of
    thimble.Store.Edit.load_env_for_edit thimble.World.acquire_lock
    thimble.Store.Bundle.load_manifest thimble.Store.Bundle.decode_manifest
    thimble.World.require_some thimble.Store.Manifest.env_from get equal thimble.World.pure
    thimble.Store.Bundle.decrypt thimble.World.gets put thimble.Base.Space.space1
    thimble.Base.Space.space2 thimble.Base.Space.space3 thimble.Base.Space.trim_by
    thimble.Base.Space.trim_space thimble.Base.contains thimble.Base.cut_at thimble.Base.push_byte
    thimble.Dotenv.drop_cr thimble.Dotenv.Scan.drop_last_cr thimble.Dotenv.scan_lines
    thimble.Dotenv.assign_parts thimble.Dotenv.key_rest thimble.Dotenv.key_start
    thimble.Dotenv.matches_key thimble.Dotenv.parse thimble.Dotenv.parse_assignment
    thimble.Dotenv.parse_line thimble.Dotenv.parse_lines thimble.Dotenv.parse_value
    thimble.Dotenv.validate_key thimble.Outside.hex thimble.Outside.sha256_hex
    thimble.Store.Validate.contains_dots thimble.Store.Validate.matches_name
    thimble.Store.Validate.name_rest thimble.World.attempt thimble.World.check thimble.World.raise
before_read = refl

abbrev after : Values
after = put before (codes "B") (codes "2")

fitting : All (Fits after) (keys after)
unfolding keys matches_key encode_line quote_value get put equal all_of
fitting = ((refl, omega arith), ((refl, omega arith), tt))

granted : mem reader entry.recipients ≡ true
unfolding mem equal
granted = refl

found : get after (codes "B") ≡ some (codes "2")
unfolding get put equal
found = refl

run_get-run_set_example :
    run_get plain_outside host.parse_int (codes "web" ∷ codes "prod" ∷ codes "B" ∷ []) behind ≡ (
      ok tt,
      record behind {
        world = after_write behind.world;
        stdout = behind.stdout ++ (codes "2" ++ codes "\n");
      },
    )
unfolding thimble.Base.Space.trim_line_end
run_get-run_set_example =
    run_get-run_set plain_outside host.terminal host.parse_int setting set target (codes "2\n")
      reader session behind before entry (after_write world) (codes "B") (codes "2") setting_parsed
      refl refl before_read (λ n recipients plain cipher m e. sym e) granted fitting setting_run.0
      setting_run.1 found
