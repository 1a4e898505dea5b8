-- ===== src/Store/Rotate.antt =====
-- internal/store/rotate.go, and ParseOrigin and originOrDefault of origins.go.
pub mod Step
pub mod Provisioned
use thimble.Base.{
  ℕ, ◌+◌, ◌-◌, ◌*◌, ◌/◌, ◌%◌, ltb, leb, ◌==◌, Bool, true, false, not, ◌&&◌, Option, none, some,
  List, [], ◌∷◌, ◌++◌, Bytes, codes, equal, if◌then◌else◌, map,
}
use thimble.Base.Space.{trim_space}
use thimble.Base.Dict.{Dict, get, put, keys}
use thimble.Base.Sort.{sort_strings}
use thimble.Outside.{Outside, thumbprint}
use thimble.Errors.{Error, Result, ok, err, unknown_origin}
use thimble.World.{
  Origin, Origins, provision, and_set, set, other, Io, pure, lift, ◌>>=◌, ◌>>◌, tick,
}
use thimble.Dotenv.{Values}
use thimble.Audit.{recipient_remove, update}
use thimble.Audit.Ledger.{record_event}
use thimble.Store.Validate.{clean_recipient}
use thimble.Store.Edit.{Draft, rewrite_env_with_origins}
use thimble.Store.Access.{drop_recipient}
use thimble.Store.Secrets.{record_each}

-- strings.ToLower at a byte of ASCII
abbrev pub lower : ℕ → ℕ
lower c = if leb b'A' c && leb c b'Z' then c + 32 else c

unfoldable pub parse_origin : Bytes → Result Origin
parse_origin s =
    let trimmed = trim_space (map lower s) in
    if equal trimmed []
    then ok set
    else if equal trimmed (codes "set")
    then ok set
    else if equal trimmed (codes "provision")
    then ok provision
    else if equal trimmed (codes "and-set")
    then ok and_set
    else err (unknown_origin s)

abbrev pub or_set : Option Origin → Origin
or_set none = set
or_set (some (other [])) = set
or_set (some origin) = origin

unfoldable pub origin_or_default : Origins → Bytes → Origin
origin_or_default origins key = or_set (get origins key)

abbrev pub is_provision : Origin → Bool
is_provision provision = true
is_provision origin = false

-- The character of base64.RawURLEncoding for six bits.
unfoldable pub url_char : ℕ → ℕ
url_char d =
    if ltb d 26
    then 65 + d
    else if ltb d 52
    then 71 + d
    else if ltb d 62
    then d - 4
    else if d == 62
    then b'-'
    else b'_'

unfoldable pub url_encode : Bytes → Bytes
unfolding url_char
url_encode [] = []
url_encode (a ∷ []) = url_char (a / 4) ∷ url_char ((a % 4) * 16) ∷ []
url_encode (a ∷ b ∷ []) =
    url_char (a / 4) ∷ url_char ((a % 4) * 16 + b / 16) ∷ url_char ((b % 16) * 4) ∷ []
url_encode (a ∷ b ∷ c ∷ rest) =
    url_char (a / 4)
    ∷ url_char ((a % 4) * 16 + b / 16)
    ∷ url_char ((b % 16) * 4 + c / 64)
    ∷ url_char (c % 64)
    ∷ url_encode rest

unfoldable pub generate_provision_value : Outside → Io Bytes
generate_provision_value o = do n ← tick; bytes ← lift (o.random n 32); pure (url_encode bytes)

pub record RotateOutcome : Type 0 where
  pub rotated : List Bytes
  pub needs_attention : List (Bytes × Origin)

-- The loop of rotateProvisionedKeys. The origin of a rotated key is written again as it was.
unfoldable pub rotate_keys :
    Outside → Bool → List Bytes → RotateOutcome → Draft → Io (RotateOutcome × Draft)
rotate_keys o randoms_only [] out draft = pure (out, draft)
rotate_keys o randoms_only (k ∷ rest) out draft =
    elim (is_provision (origin_or_default draft.origins k)) [
      | true ↦ generate_provision_value o >>= λ fresh.
          rotate_keys o randoms_only rest (record out { rotated = out.rotated ++ (k ∷ []) })
            (record draft {
              values = put draft.values k fresh;
              origins = put draft.origins k provision;
            })
      | false ↦ elim randoms_only [
        | true ↦ rotate_keys o randoms_only rest out draft
        | false ↦
            rotate_keys o randoms_only rest
              (record out {
                needs_attention =
                    out.needs_attention ++ ((k, origin_or_default draft.origins k) ∷ []);
              })
              draft
      ]
    ]

abbrev pub nothing_rotated : RotateOutcome
nothing_rotated = record { rotated = []; needs_attention = [] }

unfoldable pub rotate_provisioned_keys : Outside → Bool → Draft → Io (RotateOutcome × Draft)
rotate_provisioned_keys o randoms_only draft =
    rotate_keys o randoms_only (sort_strings (keys draft.values)) nothing_rotated draft

pub record RotateOptions : Type 0 where
  pub rotate : Bool
  pub randoms_only : Bool

-- the edit of RemoveRecipientWithRotation
unfoldable pub rotation_edit : Outside → Bytes → RotateOptions → Draft → Io (RotateOutcome × Draft)
rotation_edit o cleaned opts draft = do
  meta ← lift (drop_recipient cleaned draft.meta)
  let dropped = record draft { meta = meta }
  if opts.rotate
      then rotate_provisioned_keys o opts.randoms_only dropped
      else pure (nothing_rotated, dropped)

unfoldable pub remove_recipient_with_rotation :
    Outside → Bytes → Bytes → Bytes → RotateOptions → Io RotateOutcome
remove_recipient_with_rotation o app env recipient opts = do
  cleaned ← lift (clean_recipient recipient)
  outcome ← rewrite_env_with_origins o app env (rotation_edit o cleaned opts)
  record_event o recipient_remove app env (thumbprint o cleaned)
  record_each o update app env outcome.rotated
  pure outcome
