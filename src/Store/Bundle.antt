-- ===== src/Store/Bundle.antt =====
-- internal/store/manifest.go, crypt.go and origins.go: the files of the store, and age on a bundle.
use thimble.Base.{Bool, true, Option, some, [], ◌∷◌, ◌++◌, Bytes, codes, equal, if◌then◌else◌}
use thimble.Outside.{Outside, sha256_hex}
use thimble.Errors.{
  Result, ok, err, undecodable_manifest, undecodable_origins, bundle_missing, sha_mismatch,
  write_failed,
}
use thimble.World.{
  File, missing, corrupt, holds, Origins, Io, pure, lift, gets, ◌>>=◌, ◌>>◌, check, require_some,
  attempt, write_file,
}
use thimble.Quorum.Protocol.{age_encrypt}
use thimble.Store.Manifest.{EnvManifest, Manifest, empty_manifest}
use thimble.Store.Validate.{validate_recipients}

-- loadManifest on the decoded file
unfoldable pub decode_manifest : File Manifest → Result Manifest
decode_manifest missing = ok empty_manifest
decode_manifest corrupt = err undecodable_manifest
decode_manifest (holds m) = ok m

unfoldable pub load_manifest : Io Manifest
load_manifest w = (decode_manifest w.manifest, w)

unfoldable pub save_manifest : Manifest → Io (Unit {0})
save_manifest m = attempt write_failed (λ w. record w { manifest = holds m })

-- filepath.Join(app, env+".env.age")
unfoldable pub bundle_file : Bytes → Bytes → Bytes
bundle_file app env = app ++ (b'/' ∷ (env ++ codes ".env.age"))

-- originsPath, below the root
unfoldable pub origins_path : Bytes → Bytes → Bytes
origins_path app env = app ++ (b'/' ∷ (env ++ codes ".origins.json"))

-- loadOrigins on the decoded file
unfoldable pub decode_origins : File Origins → Result Origins
decode_origins missing = ok []
decode_origins corrupt = err undecodable_origins
decode_origins (holds origins) = ok origins

unfoldable pub load_origins : Bytes → Bytes → Io Origins
load_origins app env w = (decode_origins (w.origins (origins_path app env)), w)

-- a write of the origins file, or its removal
unfoldable pub put_origins : Bytes → File Origins → Io (Unit {0})
put_origins path contents =
    attempt write_failed (λ w. record w { origins = write_file w.origins path contents })

unfoldable pub save_origins : Bytes → Bytes → Origins → Io (Unit {0})
save_origins app env origins = put_origins (origins_path app env) (holds origins)

-- a write of a bundle, or its removal
unfoldable pub put_bundle : Bytes → Option Bytes → Io (Unit {0})
put_bundle path contents =
    attempt write_failed (λ w. record w { bundles = write_file w.bundles path contents })

-- The result is the entry with its new BundleSHA256.
unfoldable pub encrypt_and_write : Outside → EnvManifest → Bytes → Io EnvManifest
encrypt_and_write o meta plain = do
  lift (validate_recipients meta.recipients)
  cipher ← age_encrypt o meta.recipients plain
  put_bundle meta.file (some cipher)
  pure (record meta { bundle_sha256 = sha256_hex o cipher })

-- meta.BundleSHA256 == "" || meta.BundleSHA256 == actual
abbrev pub sha_accepts : Bytes → Bytes → Bool
sha_accepts stored actual = if equal stored [] then true else equal stored actual

-- decrypt; the program never uses the SHA-256 that it also returns
unfoldable pub decrypt : Outside → EnvManifest → Io Bytes
decrypt o meta = do
  bundles ← gets (λ w. w.bundles)
  cipher ← require_some (bundles meta.file) bundle_missing
  check (sha_accepts meta.bundle_sha256 (sha256_hex o cipher)) sha_mismatch
  lift (o.decrypt cipher)
