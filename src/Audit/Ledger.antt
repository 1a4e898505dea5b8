-- ===== src/Audit/Ledger.antt =====
-- internal/audit and internal/store/audit_hook.go: what the store adds to the ledger, and the
-- operator it names there.
use thimble.Base.{
  ℕ, leb, if◌then◌else◌, Bool, false, Option, none, some, List, [], ◌∷◌, ◌++◌, Bytes, codes, equal,
  has_prefix, drop, length,
}
use thimble.Base.Space.{trim_space}
use thimble.Dotenv.Scan.{scan_lines, drop_cr}
use thimble.Outside.{Outside, thumbprint}
use thimble.Audit.{Op, Event}
use thimble.Errors.{write_failed}
use thimble.World.{Io, pure, ◌>>=◌, on_failure, attempt, tick}

abbrev pub key_prefix : Bytes
key_prefix = codes "# public key:"

-- bufio.MaxScanTokenSize, the length at which a line is too long for the scanner
abbrev pub max_line : ℕ
max_line = 65536

-- the loop of PublicRecipientFromIdentityFile; a line too long for the scanner ends it with an error
unfoldable pub recipient_line : List Bytes → Option Bytes
recipient_line [] = none
recipient_line (raw ∷ rest) =
    let later = recipient_line rest in
    let line = trim_space (drop_cr raw) in
    let rec = trim_space (drop (length key_prefix) line) in
    if leb max_line (length raw)
    then none
    else if has_prefix line key_prefix
    then (if equal rec [] then later else some rec)
    else later

unfoldable pub public_recipient : Option Bytes → Option Bytes
unfolding recipient_line
public_recipient none = none
public_recipient (some text) = recipient_line (scan_lines text)

-- operatorThumbprint, which stays what it was found to be first
unfoldable pub operator_thumbprint : Outside → Bytes
operator_thumbprint o = elim (public_recipient o.identity_file) [
  | none ↦ codes "unknown"
  | some recipient ↦ thumbprint o recipient
]

-- Append; recordEventWithSigners ignores its error
unfoldable pub append : Event → Io (Unit {0})
append event =
    on_failure (attempt write_failed (λ w. record w { log = w.log ++ (event ∷ []) })) (λ e. pure tt)

unfoldable pub record_event_with_signers :
    Outside → Op → Bytes → Bytes → Bytes → List Bytes → Bool → Io (Unit {0})
record_event_with_signers o op app env subject signers bootstrap =
    if o.audited
    then (tick >>= λ n. append (record {
      timestamp = o.clock n;
      operator = operator_thumbprint o;
      op = op;
      app = app;
      env = env;
      subject = subject;
      signers = signers;
      bootstrap = bootstrap;
    }))
    else pure tt

unfoldable pub record_event : Outside → Op → Bytes → Bytes → Bytes → Io (Unit {0})
record_event o op app env subject = record_event_with_signers o op app env subject [] false
