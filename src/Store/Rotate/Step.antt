-- ===== src/Store/Rotate/Step.antt =====
-- rotateProvisionedKeys: what one key does to the values and to the report.
use thimble.Base.{
  ◌≡◌, refl, sym, ap, ◌∙◌, Bool, true, false, ◌&&◌, ◌||◌, Option, none, some, List, [], ◌∷◌, ◌++◌,
  Bytes, arith, mem, equal, equal_iff, if◌then◌else◌,
}
use thimble.Base.Dict.{get, put, get-put}
use thimble.Base.Unique.{mem-append}
use thimble.World.{Origin, Origins, provision, and_set, set, other}
use thimble.Store.Edit.{Draft}
use thimble.Store.Rotate.{or_set, origin_or_default, is_provision, RotateOutcome}

-- What a rotation over `names` has done to a draft and to an outcome.
pub record Rotated (names : List Bytes) (out : RotateOutcome) (draft : Draft) (out' : RotateOutcome)
    (draft' : Draft) : Type 0 where
  pub same_meta : draft'.meta ≡ draft.meta
  pub same_origins : (k : Bytes) → get draft'.origins k ≡ get draft.origins k
  pub same_values :
      (k : Bytes)
      → is_provision (origin_or_default draft.origins k) ≡ false
      → get draft'.values k ≡ get draft.values k
  pub rotated_are :
      (k : Bytes)
      → mem k out'.rotated
        ≡ (mem k out.rotated || (mem k names && is_provision (origin_or_default draft.origins k)))

provisioned :
    (origin : Option Origin) → is_provision (or_set origin) ≡ true → origin ≡ some provision
provisioned none h = cc
provisioned (some provision) h = refl
provisioned (some and_set) h = cc
provisioned (some set) h = cc
provisioned (some (other [])) h = cc
provisioned (some (other (c ∷ cs))) h = cc

pub no_more : (out : RotateOutcome) (draft : Draft) → Rotated [] out draft out draft
unfolding mem
no_more out draft = record {
  same_meta = refl;
  same_origins = λ _. refl;
  same_values = λ _ _. refl;
  rotated_are = λ k. ground arith;
}

not_rotated :
    (b m1 m0 r p : Bool) → (b ≡ true → p ≡ false) → m1 ≡ m0 → (m1 || r && p) ≡ (m0 || (b || r) && p)
not_rotated true m1 m0 r p h e = ground (arith, h refl)
not_rotated false m1 m0 r p h e = ground arith

is_rotated :
    (b m1 m0 r p : Bool)
    → (b ≡ true → p ≡ true)
    → m1 ≡ (m0 || (b || false))
    → (m1 || r && p) ≡ (m0 || (b || r) && p)
is_rotated true m1 m0 r p h e = ground (arith, h refl)
is_rotated false m1 m0 r p h e = ground arith

pub skip_key :
    (k : Bytes) (rest : List Bytes) (out : RotateOutcome) (draft : Draft)
    (out1 out' : RotateOutcome) (draft' : Draft)
    → is_provision (origin_or_default draft.origins k) ≡ false
    → out1.rotated ≡ out.rotated
    → Rotated rest out1 draft out' draft'
    → Rotated (k ∷ rest) out draft out' draft'
unfolding mem
skip_key k rest out draft out1 out' draft' h same r = record {
  same_meta = r.same_meta;
  same_origins = r.same_origins;
  same_values = r.same_values;
  rotated_are = λ j.
      r.rotated_are j
      ∙ not_rotated (equal k j) (mem j out1.rotated) (mem j out.rotated) (mem j rest)
          (is_provision (origin_or_default draft.origins j))
          (λ e.
            ap (λ x. is_provision (origin_or_default draft.origins x)) (sym ((equal_iff k j).0 e))
            ∙ h)
          (ap (mem j) same);
}

origins_put :
    (origins : Origins) (k j : Bytes)
    → is_provision (origin_or_default origins k) ≡ true
    → get (put origins k provision) j ≡ get origins j
unfolding origin_or_default
origins_put origins k j h =
    get-put origins k j provision
    ∙ put_same (equal k j)
        (λ e. sym (provisioned (get origins k) h) ∙ ap (get origins) ((equal_iff k j).0 e))
  where
    put_same :
        (b : Bool)
        → (b ≡ true → some provision ≡ get origins j)
        → (if b then some provision else get origins j) ≡ get origins j
    put_same true e = e refl
    put_same false e = refl

pub rotate_key :
    (k : Bytes) (rest : List Bytes) (fresh : Bytes) (out : RotateOutcome) (draft : Draft)
    (out' : RotateOutcome) (draft' : Draft)
    → is_provision (origin_or_default draft.origins k) ≡ true
    → Rotated rest
        (record out { rotated = out.rotated ++ (k ∷ []) })
        (record draft {
          values = put draft.values k fresh;
          origins = put draft.origins k provision;
        })
        out'
        draft'
    → Rotated (k ∷ rest) out draft out' draft'
unfolding mem origin_or_default
rotate_key k rest fresh out draft out' draft' h r = record {
  same_meta = r.same_meta;
  same_origins = λ j. r.same_origins j ∙ origins_put draft.origins k j h;
  same_values = λ j e.
      r.same_values j (unprovisioned j e)
      ∙ get-put draft.values k j fresh
      ∙ other_value (equal k j) (λ s. absurd_key j s e);
  rotated_are = λ j.
      r.rotated_are j
      ∙ ap (λ o. mem j (out.rotated ++ (k ∷ [])) || mem j rest && is_provision (or_set o))
          (origins_put draft.origins k j h)
      ∙ is_rotated (equal k j) (mem j (out.rotated ++ (k ∷ []))) (mem j out.rotated) (mem j rest)
          (is_provision (or_set (get draft.origins j)))
          (λ s.
            ap (λ x. is_provision (or_set (get draft.origins x))) (sym ((equal_iff k j).0 s)) ∙ h)
          (mem-append j out.rotated (k ∷ []));
}
  where
    unprovisioned :
        (j : Bytes)
        → is_provision (origin_or_default draft.origins j) ≡ false
        → is_provision (origin_or_default (put draft.origins k provision) j) ≡ false
    unprovisioned j e = ap (λ o. is_provision (or_set o)) (origins_put draft.origins k j h) ∙ e

    absurd_key :
        (j : Bytes)
        → equal k j ≡ true
        → is_provision (origin_or_default draft.origins j) ≡ false
        → ⊥
    absurd_key j s e =
        cc (h, e, ap (λ x. is_provision (origin_or_default draft.origins x)) ((equal_iff k j).0 s))

    other_value : {o : Option Bytes} (b : Bool) → (b ≡ true → ⊥) → (if b then some fresh else o) ≡ o
    other_value true absurd = elim (absurd refl) [ ]
    other_value false absurd = refl
