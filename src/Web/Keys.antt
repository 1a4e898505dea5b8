-- ===== src/Web/Keys.antt =====
-- Which keys a batch of generated secrets is for.
use thimble.Base.{
  suc, ◌+◌, ◌≤◌, ◌≡◌, sym, ◌⊎◌, true, false, ◌||◌, List, [], ◌∷◌, ltb, arith, Bytes, All, All-imp,
  Bool-cases, inl, inr, mem, equal_refl, length, IsUnique,
}
use thimble.Base.Space.{trim_space}
use thimble.Base.Unique.{Unseen, Unseen-cons}
use thimble.Errors.{Result-cases, ok, ok_inverse}
use thimble.Dotenv.{validate_key}
use thimble.Web.Secret.{take_keys, unique_secret_keys}

-- What the keys taken from some staged ones are like, beside the keys seen before.
record Taken (seen raws keys : List Bytes) : Type 0 where
  unseen : Unseen seen keys
  distinct : IsUnique keys
  valid : All (λ k. validate_key k ≡ ok tt) keys
  few : length seen ≤ 50 → length seen + length keys ≤ 50
  complete : All (λ raw. (mem (trim_space raw) seen || mem (trim_space raw) keys) ≡ true) raws

-- One round: an error, a key seen before, or a new one.
take_keys-cons :
    (seen : List Bytes) (raw : Bytes) (rest keys : List Bytes)
    → take_keys seen (raw ∷ rest) ≡ ok keys
    → (validate_key (trim_space raw) ≡ ok tt)
      × (((mem (trim_space raw) seen ≡ true) × (take_keys seen rest ≡ ok keys))
          ⊎ ((later : List Bytes) × (mem (trim_space raw) seen ≡ false)
              × (suc (length seen) ≤ 50)
              × (take_keys (trim_space raw ∷ seen) rest ≡ ok later)
              × (keys ≡ trim_space raw ∷ later)))
unfolding take_keys
take_keys-cons seen raw rest keys h = elim (Result-cases (validate_key (trim_space raw))) [
  | inl (e, invalid) ↦ absurd (ground arith)
  | inr (done, valid) ↦ (
    valid,
    elim (Bool-cases (mem (trim_space raw) seen)) [
      | inl old ↦ inl (old, ground arith)
      | inr new ↦ elim (Bool-cases (ltb 50 (suc (length seen)))) [
        | inl full ↦ absurd (ground arith)
        | inr room ↦ elim (Result-cases (take_keys (trim_space raw ∷ seen) rest)) [
          | inl (e, refused) ↦ absurd (ground arith)
          | inr (later, taken) ↦ inr (later, new, ground arith, taken, ground arith)
        ]
      ]
    ],
  )
]

itself : (key : Bytes) (seen later : List Bytes) → (mem key seen || mem key (key ∷ later)) ≡ true
unfolding mem
itself key seen later = ground (arith, equal_refl key)

-- A key stands among the keys seen or taken, also when one more has been taken.
move_key :
    (key : Bytes) (seen later raws : List Bytes)
    → All (λ raw. (mem (trim_space raw) (key ∷ seen) || mem (trim_space raw) later) ≡ true) raws
    → All (λ raw. (mem (trim_space raw) seen || mem (trim_space raw) (key ∷ later)) ≡ true) raws
unfolding mem
move_key key seen later raws h = All-imp (λ raw m. ground (arith, m)) raws h

take_keys-Taken :
    (raws seen keys : List Bytes) → take_keys seen raws ≡ ok keys → Taken seen raws keys
unfolding take_keys
take_keys-Taken [] seen keys h =
    rw (sym (ok_inverse h)) (record {
      unseen = tt;
      distinct = tt;
      valid = tt;
      few = λ f. omega (arith, f);
      complete = tt;
    })
take_keys-Taken (raw ∷ rest) seen keys h = elim (take_keys-cons seen raw rest keys h).1 [
  | inl (old, taken) ↦
      let t = take_keys-Taken rest seen keys taken in
      record {
        unseen = t.unseen;
        distinct = t.distinct;
        valid = t.valid;
        few = t.few;
        complete = (ground (arith, old), t.complete);
      }
  | inr (later, new, room, taken, longer) ↦
      let t = take_keys-Taken rest (trim_space raw ∷ seen) later taken in
      let (apart, unseen) = Unseen-cons (trim_space raw) seen later t.unseen in
      rw longer (record {
        unseen = (new, unseen);
        distinct = (apart, t.distinct);
        valid = ((take_keys-cons seen raw rest keys h).0, t.valid);
        few = λ f. omega (arith, t.few room);
        complete = (
          itself (trim_space raw) seen later,
          move_key (trim_space raw) seen later rest t.complete,
        );
      })
]

-- A batch that the web UI generates secrets for: at most fifty distinct and valid keys, and each of
-- those that were staged.
pub record Batch (raws keys : List Bytes) : Type 0 where
  pub distinct : IsUnique keys
  pub valid : All (λ k. validate_key k ≡ ok tt) keys
  pub few : length keys ≤ 50
  pub complete : All (λ raw. mem (trim_space raw) keys ≡ true) raws

-- The keys that uniqueSecretKeys returns are at most fifty, distinct and valid, and the trimmed
-- form of each staged key is among them.
pub unique_secret_keys-Batch :
    (raws keys : List Bytes) → unique_secret_keys raws ≡ ok keys → Batch raws keys
unfolding unique_secret_keys mem
unique_secret_keys-Batch [] keys h = cc
unique_secret_keys-Batch (raw ∷ rest) keys h =
    let t = take_keys-Taken (raw ∷ rest) [] keys h in
    record {
      distinct = t.distinct;
      valid = t.valid;
      few = omega (arith, t.few (omega arith));
      complete = t.complete;
    }
