-- ===== src/Cli/Inspect.antt =====
-- internal/cli/run_verify.go and run_audit.go: the attestation of a bundle, and the ledger.
use thimble.Base.{
  ℕ, ◌-◌, List, [], ◌∷◌, ◌++◌, ltb, length, if◌then◌else◌, Bytes, codes, equal, drop, map,
}
use thimble.Base.Decimal.{decimal, pad_end}
use thimble.Base.Number.{ℤ, pos, negsuc}
use thimble.Errors.{Result, ok, err, usage, limit_below_one, bundle_unhashed, bundle_mismatch}
use thimble.Outside.{Outside}
use thimble.World.{World}
use thimble.Audit.{Event, op_text, filter}
use thimble.Store.Access.{VerifyReport, attest}
use thimble.Cli.Terminal.{Cmd, refuse, returns, on_store, ◌>>=◌, ◌>>◌, print, print_lines}
use thimble.Cli.Flags.{FlagSet, Given, ParseInt, integer, parse_flags, integer_or}

abbrev titled : Bytes → Bytes → Bytes
titled title value = title ++ value

-- printVerifyReport; `file` is the lines for the bundle's path, size and mode, which the operating
-- system reports
unfoldable pub print_verify_report : List Bytes → Bytes → Bytes → VerifyReport → Cmd (Unit {0})
unfolding print_lines
print_verify_report file app env r = do
  print_lines ((codes "namespace:    " ++ (app ++ (codes "/" ++ env))) ∷ file)
  print_lines (
      titled (codes "version:      ") (decimal r.stored_version)
      ∷ titled (codes "manifest sha: ")
          (if equal r.manifest_sha [] then codes "(empty)" else r.manifest_sha)
      ∷ titled (codes "actual sha:   ") r.actual_sha
      ∷ titled (codes "verdict:      ") (if r.matches then codes "match" else codes "MISMATCH")
      ∷ (codes "recipients (" ++ (decimal (length r.recipients) ++ codes "):"))
      ∷ map (λ entry. codes "  " ++ (pad_end 12 entry.0 ++ (codes " " ++ entry.1))) r.recipients)

abbrev judge_report : Bytes → Bytes → VerifyReport → Result (Unit {0})
judge_report app env r =
    if r.matches
    then ok tt
    else if equal r.manifest_sha []
    then err (bundle_unhashed app env)
    else err (bundle_mismatch r.manifest_sha r.actual_sha)

unfoldable pub run_verify : Outside → (World → List Bytes) → List Bytes → Cmd (Unit {0})
unfolding print_verify_report
run_verify o file [] = refuse (usage (codes "verify"))
run_verify o file (a ∷ []) = refuse (usage (codes "verify"))
run_verify o file (app ∷ env ∷ []) = do
  report ← on_store (attest o app env)
  lines ← on_store (λ w. (ok (file w), w))
  print_verify_report lines app env report
  returns (judge_report app env report)
run_verify o file (a ∷ b ∷ c ∷ rest) = refuse (usage (codes "verify"))

-- if len(events) > limit { events = events[len(events)-limit:] }
unfoldable pub recent {ℓ} : {A : Type ℓ} → ℕ → List A → List A
recent limit events =
    if ltb limit (length events) then drop (length events - limit) events else events

unfoldable row : Event → List Bytes
row e =
    e.timestamp
    ∷ e.operator
    ∷ op_text e.op
    ∷ (if equal e.subject [] then codes "-" else e.subject)
    ∷ []

-- The columns, by text/tabwriter.
abbrev pub Tabulate : Type 0
Tabulate = List (List Bytes) → Bytes

unfoldable pub print_audit_entries : Tabulate → List Event → ℕ → Cmd (Unit {0})
unfolding recent row op_text
print_audit_entries tabulate events limit = print (
    tabulate (
      (codes "time" ∷ codes "operator" ∷ codes "op" ∷ codes "subject" ∷ [])
      ∷ map row (recent limit events)))

abbrev audit_flags : FlagSet
audit_flags = (codes "limit", integer) ∷ []

abbrev positive : ℤ → Result ℕ
positive (pos n) = if ltb 0 n then ok n else err limit_below_one
positive (negsuc n) = err limit_below_one

-- runAudit, behind its flags; the ledger is read as the events that were appended
unfoldable pub audit_with : Tabulate → ParseInt → Given × List Bytes → Cmd (Unit {0})
unfolding print_audit_entries
audit_with tabulate parse_int (given, []) = refuse (usage (codes "audit"))
audit_with tabulate parse_int (given, a ∷ []) = refuse (usage (codes "audit"))
audit_with tabulate parse_int (given, app ∷ env ∷ []) = do
  limit ← returns (positive (integer_or parse_int given (codes "limit") (pos 50)))
  events ← on_store (λ w. (ok w.log, w))
  print_audit_entries tabulate (filter events app env) limit
audit_with tabulate parse_int (given, a ∷ b ∷ c ∷ rest) = refuse (usage (codes "audit"))

unfoldable pub run_audit : Tabulate → ParseInt → List Bytes → Cmd (Unit {0})
unfolding audit_with
run_audit tabulate parse_int args = do
  parsed ← returns (parse_flags parse_int audit_flags [] args)
  audit_with tabulate parse_int parsed
