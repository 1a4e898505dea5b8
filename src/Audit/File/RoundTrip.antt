-- ===== src/Audit/File/RoundTrip.antt =====
-- Read finds the events that Append wrote.
use thimble.Base.{
  ◌≡◌, refl, sym, ap, ◌∙◌, true, false, some, List, [], ◌∷◌, ◌++◌, leb, Bytes, length, all_of,
  differs, All, append_assoc, append-nil, take,
}
use thimble.Audit.{Event}
use thimble.Dotenv.Scan.{scan_lines, drop_cr, scan_lines-append, drop_cr-concat}
use thimble.Errors.{ok}
use thimble.Audit.File.{
  Json, LogFile, absent, opened, append_event, event_line, scanner_buffer_bytes, read_lines, read,
}

-- What json.Marshal and json.Unmarshal make of an event whose texts are UTF-8: an object on one line,
-- which is read back, and here is shorter than the scanner's buffer.
pub record IsEntry (json : Json) (event : Event) : Type 0 where
  pub body : Bytes
  pub closed : json.marshal event ≡ body ++ (b'}' ∷ [])
  pub one_line : all_of (differs b'\n') (json.marshal event) ≡ true
  pub restored : json.unmarshal (json.marshal event) ≡ some event
  pub fits : leb scanner_buffer_bytes (length (json.marshal event)) ≡ false

-- Appends that write each line as a whole.
unfoldable pub append_all : Json → List Event → LogFile → LogFile
append_all json [] file = file
append_all json (e ∷ es) file =
    append_all json es (append_event json (length (event_line json e)) e file).1

abbrev text_of : Json → List Event → Bytes
text_of json [] = []
text_of json (e ∷ es) = json.marshal e ++ (b'\n' ∷ text_of json es)

take_whole : (s : Bytes) → take (length s) s ≡ s
take_whole [] = refl
take_whole (c ∷ cs) = ap (λ t. c ∷ t) (take_whole cs)

append_all_text :
    (json : Json) (es : List Event) (text : Bytes)
    → append_all json es (opened text) ≡ opened (text ++ text_of json es)
unfolding append_all append_event
append_all_text json [] text = ap opened (sym (append-nil text))
append_all_text json (e ∷ es) text =
    let line = event_line json e in
    ap (λ t. append_all json es (opened (text ++ t))) (take_whole line)
    ∙ append_all_text json es (text ++ line)
    ∙ ap opened (append_assoc text line (text_of json es))
    ∙ ap (λ t. opened (text ++ t)) (append_assoc (json.marshal e) (b'\n' ∷ []) (text_of json es))

read_lines_text :
    (json : Json) (es : List Event)
    → All (IsEntry json) es
    → read_lines json (scan_lines (text_of json es)) ≡ ok es
unfolding read_lines scan_lines
read_lines_text json [] h = refl
read_lines_text json (e ∷ es) h =
    let whole : drop_cr (json.marshal e) ≡ json.marshal e =
      rw h.0.closed (drop_cr-concat h.0.body b'}' refl) in
    rw
      (
        scan_lines-append (json.marshal e) (text_of json es) h.0.one_line,
        h.0.fits,
        whole,
        h.0.restored,
        read_lines_text json es h.1,
      )
      refl

append_all_absent :
    (json : Json) (es : List Event)
    → read json (append_all json es absent) ≡ read json (opened (text_of json es))
unfolding append_all append_event read read_lines scan_lines
append_all_absent json [] = refl
append_all_absent json (e ∷ es) = ap (read json) (append_all_text json (e ∷ es) [])

-- A ledger that appends have written from the start, each line as a whole, is read as the events in
-- their order, if JSON restores each of them, writes it on one line that ends with its brace, and
-- the line is shorter than the scanner's buffer.
pub read-append_all :
    (json : Json) (es : List Event)
    → All (IsEntry json) es
    → read json (append_all json es absent) ≡ ok es
unfolding read
read-append_all json es h = append_all_absent json es ∙ read_lines_text json es h
