-- ===== src/Cli/Recipient/Gated.antt =====
-- What `recipient add` on the command line needs under a quorum policy.
use thimble.Base.{
  ◌≡◌, refl, sym, ap, ◌∙◌, Bool, true, false, some, List, [], ◌∷◌, ◌⊎◌, inl, inr, Bool-cases, Bytes,
  codes, equal, equal_comm, has_prefix, mem, arith,
}
use thimble.Errors.{Result, ok, err, ok_inverse, Result-cases, Ensures}
use thimble.Outside.{Outside}
use thimble.World.{World}
use thimble.World.Steps.{lift-eq-ok}
use thimble.World.Ends.{at_end}
use thimble.Quorum.Policy.{Policy, load_policy}
use thimble.Store.Validate.{clean_recipient}
use thimble.Store.Gate.{AddOutcome, Stage, added, prepared, add_recipient_v2}
use thimble.Store.Gate.Approval.{GateOpened, add_recipient_v2-GateOpened}
use thimble.Cli.Terminal.{Session, Cmd, print, refuse, returns, on_store, proceed, ◌>>=◌}
use thimble.Cli.Recipient.{
  parse_add_args, print_added_outcome, print_prepared_outcome, print_add_outcome, add_with,
  run_recipient_add,
}

-- The parser reports the bootstrap flag only where it is among the arguments.
parse_add_args-unforced :
    (args positional : List Bytes) (bootstrap : Bool)
    → mem (codes "--bootstrap") args ≡ false
    → parse_add_args args ≡ ok (bootstrap, positional)
    → bootstrap ≡ false
unfolding parse_add_args mem
parse_add_args-unforced [] positional bootstrap m h = cc
parse_add_args-unforced (a ∷ rest) positional bootstrap m h =
    let other : equal a (codes "--bootstrap") ≡ false =
      ground (arith, equal_comm a (codes "--bootstrap")) in
    let absent : mem (codes "--bootstrap") rest ≡ false = ground arith in
    elim (Result-cases (parse_add_args rest)) [
      | inl (e, refused) ↦ elim (Bool-cases (has_prefix a (codes "-"))) [
        | inl flag ↦ let h1 = rw (parse_add_args, other, flag) at h in cc
        | inr word ↦ let h1 = rw (parse_add_args, other, word, refused) at h in cc
      ]
      | inr ((b, more), parsed) ↦ elim (Bool-cases (has_prefix a (codes "-"))) [
        | inl flag ↦ let h1 = rw (parse_add_args, other, flag) at h in cc
        | inr word ↦
            let h1 = rw (parse_add_args, other, word, parsed) at h in
            let kept = parse_add_args-unforced rest more b absent parsed in
            ap (λ (p : Bool × List Bytes). p.0) (sym (ok_inverse h1)) ∙ kept
      ]
    ]

-- An addition that ends with success: the namespace and the recipient that the arguments name, and
-- what AddRecipientV2 returned without the bootstrap flag.
pub record Admitted (o : Outside) (args : List Bytes) (policy : Policy) (before after : World)
    : Type 0 where
  pub app : Bytes
  pub env : Bytes
  pub recipient : Bytes
  pub cleaned : Bytes
  pub out : AddOutcome
  pub asked : parse_add_args args ≡ ok (false, app ∷ env ∷ recipient ∷ [])
  pub clean : clean_recipient recipient ≡ ok cleaned
  pub run : add_recipient_v2 o app env recipient false before ≡ (ok out, after)
  pub gate : out.stage ≡ added → GateOpened o app env cleaned policy before out

-- The run succeeded and left the store as it was.
abbrev Quiet : Cmd (Unit {0}) → Session → Type 0
Quiet m s = ((m s).0 ≡ ok tt) × ((m s).1.world ≡ s.world)

print_added_outcome-Quiet :
    (app env : Bytes) (names : List Bytes) (s : Session)
    → Quiet (print_added_outcome app env names) s
unfolding print_added_outcome print ◌>>=◌
print_added_outcome-Quiet app env [] s = (refl, refl)
print_added_outcome-Quiet app env (n ∷ ns) s = (refl, refl)

Stage-cases : (stage : Stage) → (stage ≡ prepared) ⊎ (stage ≡ added)
Stage-cases added = inr refl
Stage-cases prepared = inl refl

print_add_outcome-Quiet :
    (app env : Bytes) (out : AddOutcome) (s : Session) → Quiet (print_add_outcome app env out) s
unfolding print_add_outcome print_prepared_outcome print ◌>>=◌
print_add_outcome-Quiet app env out s = elim (Stage-cases out.stage) [
  | inl waiting ↦ rw (print_add_outcome, waiting) (refl, refl)
  | inr complete ↦
      rw (print_add_outcome, complete) (print_added_outcome-Quiet app env out.signer_names s)
]

module _ (o : Outside) (args : List Bytes) (policy : Policy) (s : Session)
    (policy_is : load_policy s.world.policy ≡ ok (some policy)) where
  abbrev Succeeded : Result (Unit {0}) × Session → Type 0
  Succeeded r = Ensures (λ _. Admitted o args policy s.world r.1.world) r.0

  succeeded :
      (m : Cmd (Unit {0})) (at : Session)
      → Quiet m at
      → Admitted o args policy s.world at.world
      → Succeeded (m at)
  succeeded m at (ends, same) h = rw (ends, same) h

  admitted :
      (app env recipient : Bytes) (out : AddOutcome) (w : World)
      → parse_add_args args ≡ ok (false, app ∷ env ∷ recipient ∷ [])
      → add_recipient_v2 o app env recipient false s.world ≡ (ok out, w)
      → Admitted o args policy s.world w
  unfolding add_recipient_v2
  admitted app env recipient out w asked ran =
      let (cleaned, clean, _) = lift-eq-ok (clean_recipient recipient) _ s.world ran in
      record {
        app = app;
        env = env;
        recipient = recipient;
        cleaned = cleaned;
        out = out;
        asked = asked;
        clean = clean;
        run = ran;
        gate = at_end _ _ out w ran (
            add_recipient_v2-GateOpened o app env recipient cleaned policy s.world clean policy_is);
      }

  finish :
      (app env recipient : Bytes) (r : Result AddOutcome × World)
      → parse_add_args args ≡ ok (false, app ∷ env ∷ recipient ∷ [])
      → add_recipient_v2 o app env recipient false s.world ≡ r
      → Succeeded (proceed r.0 (print_add_outcome app env) (record s { world = r.1 }))
  finish app env recipient (err e, w) asked ran = tt
  finish app env recipient (ok out, w) asked ran =
      succeeded (print_add_outcome app env out) (record s { world = w })
        (print_add_outcome-Quiet app env out (record s { world = w }))
        (admitted app env recipient out w asked ran)

  gated :
      (b : Bool) (positional : List Bytes)
      → b ≡ false
      → parse_add_args args ≡ ok (b, positional)
      → Succeeded (add_with o (b, positional) s)
  unfolding add_with refuse ◌>>=◌ on_store
  gated b [] free asked = tt
  gated b (x ∷ []) free asked = tt
  gated b (x ∷ y ∷ []) free asked = tt
  gated true (app ∷ env ∷ recipient ∷ []) free asked = cc
  gated false (app ∷ env ∷ recipient ∷ []) free asked =
      finish app env recipient (add_recipient_v2 o app env recipient false s.world) asked refl
  gated b (x ∷ y ∷ z ∷ u ∷ rest) free asked = tt

-- When a quorum policy is in place and --bootstrap is not among the arguments, a `recipient add`
-- that succeeds is a run of AddRecipientV2 on the namespace and the recipient that the arguments
-- name, and it has added the recipient only if Verify has succeeded for it.
pub run_recipient_add-GateOpened :
    (o : Outside) (args : List Bytes) (policy : Policy) (s : Session)
    → load_policy s.world.policy ≡ ok (some policy)
    → mem (codes "--bootstrap") args ≡ false
    → Ensures
        (λ _. Admitted o args policy s.world (run_recipient_add o args s).1.world)
        (run_recipient_add o args s).0
unfolding run_recipient_add returns ◌>>=◌
run_recipient_add-GateOpened o args policy s policy_is free = parsed (parse_add_args args) refl
  where
    parsed :
        (r : Result (Bool × List Bytes))
        → parse_add_args args ≡ r
        → Succeeded o args policy s policy_is (proceed r (add_with o) s)
    parsed (err e) asked = tt
    parsed (ok (b, positional)) asked =
        gated o args policy s policy_is b positional
          (parse_add_args-unforced args positional b free asked) asked
