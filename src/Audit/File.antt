-- ===== src/Audit/File.antt =====
-- The text of the ledger: Append of audit.go and Read of read.go.
pub mod RoundTrip
use thimble.Base.{
  ℕ, Bool, true, false, Option, none, some, List, [], ◌∷◌, ◌++◌, leb, if◌then◌else◌, Bytes, length,
  take, ◌^◌,
}
use thimble.Audit.{Event}
use thimble.Dotenv.{scan_lines, drop_cr}
use thimble.Errors.{Result, ok, err, write_failed, audit_line_too_long, audit_unreadable}

-- json.Marshal and json.Unmarshal on an event
pub record Json : Type 0 where
  pub marshal : Event → Bytes
  pub unmarshal : Bytes → Option Event

pub data LogFile : Type 0 where
  absent refused : LogFile
  opened : Bytes → LogFile

abbrev event_line : Json → Event → Bytes
event_line json event = json.marshal event ++ (b'\n' ∷ [])

-- f.Write, which writes the first `written` bytes of the line
abbrev write_line : ℕ → Bytes → Bytes → Result (Unit {0}) × LogFile
write_line written line text = (
  if leb (length line) written then ok tt else err write_failed,
  opened (text ++ take written line),
)

-- The event has its timestamp.
unfoldable pub append_event : Json → ℕ → Event → LogFile → Result (Unit {0}) × LogFile
append_event json written event refused = (err write_failed, refused)
append_event json written event absent = write_line written (event_line json event) []
append_event json written event (opened text) = write_line written (event_line json event) text

abbrev pub scanner_buffer_bytes : ℕ
scanner_buffer_bytes = 2 ^ 20

-- events = append(events, ev), unless the line is malformed
abbrev pub keep_event : Option Event → List Event → List Event
keep_event none later = later
keep_event (some e) later = e ∷ later

abbrev pub keep_read : Option Event → Result (List Event) → Result (List Event)
keep_read found (err e) = err e
keep_read found (ok later) = ok (keep_event found later)

-- the loop of Read, and scanner.Err for a line that does not fit the buffer
unfoldable pub read_lines : Json → List Bytes → Result (List Event)
read_lines json [] = ok []
read_lines json (line ∷ rest) =
    let later = read_lines json rest in
    if leb scanner_buffer_bytes (length line)
    then err audit_line_too_long
    else keep_read (json.unmarshal (drop_cr line)) later

unfoldable pub read : Json → LogFile → Result (List Event)
unfolding read_lines scan_lines
read json absent = ok []
read json refused = err audit_unreadable
read json (opened text) = read_lines json (scan_lines text)
