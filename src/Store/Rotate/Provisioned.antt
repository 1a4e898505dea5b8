-- ===== src/Store/Rotate/Provisioned.antt =====
-- rotateProvisionedKeys: which values a rotation replaces.
use thimble.Base.{
  ◌≡◌, refl, ap, ◌∙◌, inl, inr, Bool, true, false, ◌&&◌, List, [], ◌∷◌, ◌++◌, Bytes, mem,
  Bool-cases,
}
use thimble.Base.Dict.{get, put, keys, has, mem-keys}
use thimble.Base.Sort.{sort_strings, mem-sort_strings}
use thimble.Outside.{Outside}
use thimble.World.{World, provision}
use thimble.World.Ends.{Ends, Ends-skip, Ends-pure, Ended-imp}
use thimble.Store.Edit.{Draft}
use thimble.Store.Rotate.{
  origin_or_default, is_provision, generate_provision_value, RotateOutcome, rotate_keys,
  nothing_rotated, rotate_provisioned_keys,
}
use thimble.Store.Rotate.Step.{Rotated, no_more, skip_key, rotate_key}

module _ (o : Outside) (k : Bytes) (rest : List Bytes) (out : RotateOutcome) (draft : Draft)
    (w : World) where
  abbrev After : RotateOutcome → RotateOutcome × Draft → World → Type 0
  After out1 r v = Rotated rest out1 draft r.0 r.1

  keep_key :
      (randoms_only only : Bool)
      → is_provision (origin_or_default draft.origins k) ≡ false
      → ((out1 : RotateOutcome)
          → Ends (λ _. Unit {0}) (After out1) (rotate_keys o randoms_only rest out1 draft) w)
      → Ends
          (λ _. Unit {0})
          (λ r _. Rotated (k ∷ rest) out draft r.0 r.1)
          (elim only [
            | true ↦ rotate_keys o randoms_only rest out draft
            | false ↦
                rotate_keys o randoms_only rest
                  (record out {
                    needs_attention =
                        out.needs_attention ++ ((k, origin_or_default draft.origins k) ∷ []);
                  })
                  draft
          ])
          w
  keep_key randoms_only true keeps later =
      Ended-imp (After out) (λ r _. Rotated (k ∷ rest) out draft r.0 r.1) _ _ (later out)
        λ r v s. skip_key k rest out draft out r.0 r.1 keeps refl s
  keep_key randoms_only false keeps later =
      let out1 = record out {
        needs_attention = out.needs_attention ++ ((k, origin_or_default draft.origins k) ∷ []);
      } in
      Ended-imp (After out1) (λ r _. Rotated (k ∷ rest) out draft r.0 r.1) _ _ (later out1)
        λ r v s. skip_key k rest out draft out1 r.0 r.1 keeps refl s

  replace_key :
      (randoms_only : Bool) (fresh : Bytes)
      → is_provision (origin_or_default draft.origins k) ≡ true
      → Ends
          (λ _. Unit {0})
          (λ r _.
            Rotated rest
              (record out { rotated = out.rotated ++ (k ∷ []) })
              (record draft {
                values = put draft.values k fresh;
                origins = put draft.origins k provision;
              })
              r.0
              r.1)
          (rotate_keys o randoms_only rest
            (record out { rotated = out.rotated ++ (k ∷ []) })
            (record draft {
              values = put draft.values k fresh;
              origins = put draft.origins k provision;
            }))
          w
      → Ends
          (λ _. Unit {0})
          (λ r _. Rotated (k ∷ rest) out draft r.0 r.1)
          (rotate_keys o randoms_only rest
            (record out { rotated = out.rotated ++ (k ∷ []) })
            (record draft {
              values = put draft.values k fresh;
              origins = put draft.origins k provision;
            }))
          w
  replace_key randoms_only fresh rotates later =
      Ended-imp
        (λ r _.
          Rotated rest (record out { rotated = out.rotated ++ (k ∷ []) })
            (record draft {
              values = put draft.values k fresh;
              origins = put draft.origins k provision;
            })
            r.0 r.1)
        (λ r _. Rotated (k ∷ rest) out draft r.0 r.1) _ _ later
        λ r v s. rotate_key k rest fresh out draft r.0 r.1 rotates s

rotate_keys-Rotated :
    (o : Outside) (randoms_only : Bool) (names : List Bytes) (out : RotateOutcome) (draft : Draft)
    (w : World)
    → Ends
        (λ _. Unit {0})
        (λ r _. Rotated names out draft r.0 r.1)
        (rotate_keys o randoms_only names out draft)
        w
unfolding rotate_keys
rotate_keys-Rotated o randoms_only [] out draft w =
    Ends-pure (λ _. Unit {0}) (λ r _. Rotated [] out draft r.0 r.1) _ w (no_more out draft)
rotate_keys-Rotated o randoms_only (k ∷ rest) out draft w =
    elim (Bool-cases (is_provision (origin_or_default draft.origins k))) [
      | inl rotates ↦
          rw (rotates, rotate_keys)
            (Ends-skip (λ r _. Rotated (k ∷ rest) out draft r.0 r.1) (generate_provision_value o) _
              w
              λ fresh w1. replace_key o k rest out draft w1 randoms_only fresh rotates (
                rotate_keys-Rotated o randoms_only rest
                  (record out { rotated = out.rotated ++ (k ∷ []) })
                  (record draft {
                    values = put draft.values k fresh;
                    origins = put draft.origins k provision;
                  })
                  w1))
      | inr keeps ↦
          rw (keeps, rotate_keys)
            (keep_key o k rest out draft w randoms_only randoms_only keeps
              (λ out1. rotate_keys-Rotated o randoms_only rest out1 draft w))
    ]

-- A rotation that succeeds reports as rotated exactly the keys of the namespace whose origin is
-- `provision`; the value of every other key, the recorded origins and the manifest entry stay as
-- they were.
pub rotate_provisioned_keys-rotated :
    (o : Outside) (randoms_only : Bool) (draft : Draft) (w : World)
    → Ends
        (λ _. Unit {0})
        (λ (out, draft') _.
          (draft'.meta ≡ draft.meta)
          × ((k : Bytes) → get draft'.origins k ≡ get draft.origins k)
          × ((k : Bytes)
              → is_provision (origin_or_default draft.origins k) ≡ false
              → get draft'.values k ≡ get draft.values k)
          × ((k : Bytes)
              → mem k out.rotated
                ≡ (has draft.values k && is_provision (origin_or_default draft.origins k))))
        (rotate_provisioned_keys o randoms_only draft)
        w
unfolding rotate_provisioned_keys mem
rotate_provisioned_keys-rotated o randoms_only draft w =
    Ended-imp (λ r _. Rotated (sort_strings (keys draft.values)) nothing_rotated draft r.0 r.1) _ _
      _
      (rotate_keys-Rotated o randoms_only (sort_strings (keys draft.values)) nothing_rotated draft
        w)
      λ r v s. (
        s.same_meta,
        s.same_origins,
        s.same_values,
        λ k.
            s.rotated_are k
            ∙ ap (λ b. b && is_provision (origin_or_default draft.origins k))
                (mem-sort_strings k (keys draft.values) ∙ mem-keys draft.values k),
      )
