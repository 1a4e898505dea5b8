-- ===== src/Age/Safe.antt =====
-- What age is run for: the pinned program, with an identity file that only its owner can read, and
-- never with a secret among the arguments.
use thimble.Base.{
  ℕ, zero, suc, ◌%◌, ◌≡◌, ◌≤◌, refl, sym, ap, ◌∙◌, ◌⊎◌, inl, inr, Bool, true, false, Option, none,
  some, [], ◌∷◌, ◌++◌, ◌==◌, ==_iff, leb, leb→le, Bool-cases, Option-cases, arith, Bytes, codes,
  equal, equal_iff, length, length-append, take,
}
use thimble.Base.Space.{trim_space}
use thimble.Errors.{Error, Result, ok, err, ok_inverse, identity_unreadable}
use thimble.Age.{
  Platform, Tool, Process, judge_mode, check_identity_mode, file_sha256, binary_or_age, check_pin,
  shorten, resolve, announce_binary, redact, run_age, decryption, then_run, decrypt,
}

check_pin-eq-ok :
    (os : Platform) (pin resolved path : Bytes)
    → check_pin os pin resolved ≡ ok path
    → (path ≡ resolved) × ((pin ≡ []) ⊎ (file_sha256 os resolved ≡ some (os.fold (trim_space pin))))
unfolding check_pin
check_pin-eq-ok os pin resolved path h = elim (Bool-cases (equal pin [])) [
  | inl free ↦
      let h1 = rw (check_pin, free) at h in (sym (ok_inverse h1), inl ((equal_iff pin []).0 free))
  | inr pinned ↦ elim (Option-cases (file_sha256 os resolved)) [
    | inl unread ↦ let h1 = rw (check_pin, pinned, unread) at h in cc
    | inr (got, hashed) ↦ elim (Bool-cases (equal got (os.fold (trim_space pin)))) [
      | inl same ↦
          let h1 = rw (check_pin, pinned, hashed, same) at h in
          (sym (ok_inverse h1), inr (hashed ∙ ap some ((equal_iff got _).0 same)))
      | inr other ↦ let h1 = rw (check_pin, pinned, hashed, other) at h in cc
    ]
  ]
]

-- The program that Resolve returns has the pinned digest, if there is a pin.
pub resolve-eq-ok :
    (os : Platform) (binary pin path : Bytes)
    → resolve os binary pin ≡ ok path
    → (pin ≡ []) ⊎ (file_sha256 os path ≡ some (os.fold (trim_space pin)))
unfolding resolve
resolve-eq-ok os binary pin path h = elim (Option-cases (os.look_path (binary_or_age binary))) [
  | inl missing ↦ let h1 = rw (resolve, missing) at h in cc
  | inr (resolved, there) ↦
      let h1 = rw (resolve, there) at h in
      let (same, checked) = check_pin-eq-ok os pin resolved path h1 in rw same checked
]

length-take-le : (n : ℕ) (s : Bytes) → length (take n s) ≤ n
length-take-le zero s = omega arith
length-take-le (suc n) [] = omega arith
length-take-le (suc n) (c ∷ cs) = omega (arith, length-take-le n cs)

length-shorten : (s : Bytes) → length (shorten s) ≤ 243
length-shorten s = elim (Bool-cases (equal s [])) [
  | inl empty ↦ rw empty (omega arith)
  | inr given ↦ elim (Bool-cases (leb (length s) 240)) [
    | inl short ↦ rw (given, short) (omega (arith, leb→le (length s) 240 short))
    | inr long ↦
        rw (given, long)
          (omega (arith, length-append (take 240 s) (codes "..."), length-take-le 240 s))
  ]
]

-- What a failure of age tells is at most 243 bytes long.
pub length-redact : (s : Bytes) → length (redact s) ≤ 243
unfolding redact
length-redact s = length-shorten (trim_space s)

-- Why an identity file may be used: none is configured, the check is switched off, or nobody but
-- its owner has a permission.
abbrev pub Permitted : Platform → Bytes → Bool → Type 0
Permitted os identity allow =
    (identity ≡ []) ⊎ (allow ≡ true) ⊎ ((m : ℕ) × (os.mode identity ≡ some m) × (m % 64 ≡ 0))

abbrev Checked : Platform → Bytes → Bool → Process → Result (Unit {0}) × Process → Type 0
Checked os identity allow p r = (r.1.runs ≡ p.runs) × (r.0 ≡ ok tt → Permitted os identity allow)

judge_mode-Checked :
    (os : Platform) (identity : Bytes) (allow : Bool) (m : ℕ) (p : Process)
    → os.mode identity ≡ some m
    → Checked os identity allow p (judge_mode identity allow m p)
unfolding judge_mode
judge_mode-Checked os identity true m p e = elim (Bool-cases (m % 64 == 0)) [
  | inl closed ↦ rw (judge_mode, closed) (refl, λ h. inr (inl refl))
  | inr exposed ↦ rw (judge_mode, exposed) (refl, λ h. inr (inl refl))
]
judge_mode-Checked os identity false m p e = elim (Bool-cases (m % 64 == 0)) [
  | inl closed ↦ rw (judge_mode, closed) (refl, λ h. inr (inr (m, e, (==_iff (m % 64) 0).0 closed)))
  | inr exposed ↦ rw (judge_mode, exposed) (refl, λ h. cc)
]

found_mode-Checked :
    (os : Platform) (identity : Bytes) (allow : Bool) (p : Process) (mode : Option ℕ)
    → os.mode identity ≡ mode
    → Checked os identity allow p (elim mode [
      | none ↦ (err (identity_unreadable identity), p)
      | some m ↦ judge_mode identity allow m p
    ])
found_mode-Checked os identity allow p none e = (refl, λ h. cc)
found_mode-Checked os identity allow p (some m) e = judge_mode-Checked os identity allow m p e

check_identity_mode-Checked :
    (os : Platform) (identity : Bytes) (allow : Bool) (p : Process)
    → Checked os identity allow p (check_identity_mode os identity allow p)
unfolding check_identity_mode
check_identity_mode-Checked os [] allow p = (refl, λ h. inl refl)
check_identity_mode-Checked os (c ∷ cs) allow p =
    found_mode-Checked os (c ∷ cs) allow p (os.mode (c ∷ cs)) refl

announce_binary-runs : (t : Tool) (p : Process) → (announce_binary t p).runs ≡ p.runs
unfolding announce_binary
announce_binary-runs t p = ground arith

-- What decrypt runs: nothing, and then it fails, or age once.
abbrev pub RanOnce : Platform → Tool → Bytes → Process → Result Bytes × Process → Type 0
RanOnce os t path p r =
    ((r.1.runs ≡ p.runs) × ((e : Error) × (r.0 ≡ err e)))
    ⊎ (Permitted os t.identity t.allow_unsafe × (r.1.runs ≡ p.runs ++ (decryption t path ∷ [])))

then_run-RanOnce :
    (os : Platform) (t : Tool) (path : Bytes) (p p' : Process) (r : Result (Unit {0}))
    → p'.runs ≡ p.runs
    → (r ≡ ok tt → Permitted os t.identity t.allow_unsafe)
    → RanOnce os t path p (then_run (run_age os (decryption t path)) (r, p'))
unfolding run_age
then_run-RanOnce os t path p p' (err e) same permitted = inl (same, (e, refl))
then_run-RanOnce os t path p p' (ok u) same permitted =
    inr (permitted refl, ap (λ runs. runs ++ (decryption t path ∷ [])) same)

-- A decryption starts at most one program, which is the tool's binary on the bundle's path, and
-- starts it only if the identity file is closed to everyone but its owner, the check is switched
-- off, or there is no identity; where it starts none it fails.
pub decrypt-RanOnce :
    (os : Platform) (t : Tool) (path : Bytes) (p : Process)
    → RanOnce os t path p (decrypt os t path p)
unfolding decrypt
decrypt-RanOnce os t path p =
    let q = announce_binary t p in
    let checked = check_identity_mode-Checked os t.identity t.allow_unsafe q in
    then_run-RanOnce os t path p (check_identity_mode os t.identity t.allow_unsafe q).1
      (check_identity_mode os t.identity t.allow_unsafe q).0 (checked.0 ∙ announce_binary-runs t p)
      checked.1
