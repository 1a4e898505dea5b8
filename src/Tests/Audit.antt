-- ===== src/Tests/Audit.antt =====
-- A ledger with two events.
use thimble.Base.{
  ◌≡◌, refl, false, none, some, [], ◌∷◌, ◌++◌, if◌then◌else◌, codes, All, all_of, equal,
}
use thimble.Audit.{Event, set, delete}
use thimble.Dotenv.Scan.{scan_lines, drop_cr}
use thimble.Errors.{ok}
use thimble.Audit.File.{Json, absent, opened, read_lines, read}
use thimble.Audit.File.RoundTrip.{IsEntry, append_all, read-append_all}

abbrev set_key : Event
set_key = record {
  timestamp = codes "2026-05-01T00:00:00Z";
  operator = codes "5f";
  op = set;
  app = codes "web";
  env = codes "prod";
  subject = codes "KEY";
  signers = [];
  bootstrap = false;
}

abbrev delete_token : Event
delete_token = record set_key { op = delete; subject = codes "TOKEN" }

-- JSON with the subject only
abbrev json : Json
json = record {
  marshal = λ e. b'{' ∷ (e.subject ++ (b'}' ∷ []));
  unmarshal = λ line.
      if equal line (codes "{KEY}")
      then some set_key
      else if equal line (codes "{TOKEN}")
      then some delete_token
      else none;
}

both_entries : All (IsEntry json) (set_key ∷ delete_token ∷ [])
unfolding all_of equal
both_entries = (
  record { body = codes "{KEY"; closed = refl; one_line = refl; restored = refl; fits = refl },
  (
    record { body = codes "{TOKEN"; closed = refl; one_line = refl; restored = refl; fits = refl },
    tt,
  ),
)

read-append_all_example :
    read json (append_all json (set_key ∷ delete_token ∷ []) absent)
    ≡ ok (set_key ∷ delete_token ∷ [])
read-append_all_example = read-append_all json (set_key ∷ delete_token ∷ []) both_entries

malformed_skipped :
    read json (opened (codes "{KEY}\n{half\n{TOKEN}\n")) ≡ ok (set_key ∷ delete_token ∷ [])
unfolding read read_lines scan_lines drop_cr equal
malformed_skipped = refl
