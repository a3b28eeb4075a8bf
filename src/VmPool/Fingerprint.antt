-- ===== src/VmPool/Fingerprint.antt =====
-- `fingerprint` of src/pool.rs: the key under which a machine can be used again. The hash, the JSON
-- of a spec, the hexadecimal digits and the file system are not of the program and are parameters.
pub mod Sorted
use ci.Common.{
  ℕ, zero, suc, ◌≡◌, refl, sym, ap, ◌∙◌, Bool, true, false, not, List, [], ◌∷◌, ◌++◌, Option, none,
  some, Text, codes, text_eq, sort_by, if◌then◌else◌, Result, ok, err, ◌>>=◌, ◌>>◌, require,
}
use ci.Json.{text_lt}
use ci.Expr.Lexer.{utf8}
use ci.Workflow.Jobs.{VmSpec}
use ci.Workflow.Validate.{escapes}

-- What `std::fs::read` of a path in the checkout gives.
pub data FileRead : Type 0 where
  content : List ℕ → FileRead
  not_found : FileRead
  unreadable : Text → FileRead

-- `PoolError`, as far as this function makes it.
pub data FingerprintError : Type 0 where
  encode : Text → FingerprintError
  escaping_path : Text → FingerprintError
  unreadable_file : (path reason : Text) → FingerprintError

pub record Outside : Type 0 where
  pub sha256 : List ℕ → List ℕ
  pub hex : List ℕ → Text
  pub spec_json : VmSpec → Result Text (List ℕ)
  pub read : Text → FileRead

-- `ABSENT` and `FINGERPRINT_LEN`.
abbrev absent_marker : List ℕ
absent_marker = 0 ∷ codes "ABSENT"

abbrev fingerprint_len : ℕ
fingerprint_len = 12

-- `Vec::dedup`: of equal neighbours the first is left.
abbrev pub dedup_after : Text → List Text → List Text
dedup_after last [] = []
dedup_after last (p ∷ ps) = let rest = dedup_after p ps in if text_eq p last then rest else p ∷ rest

abbrev pub dedup : List Text → List Text
dedup [] = []
dedup (p ∷ ps) = p ∷ dedup_after p ps

abbrev take_first : ℕ → Text → Text
take_first zero s = []
take_first (suc n) [] = []
take_first (suc n) (c ∷ s) = c ∷ take_first n s

module _ (outside : Outside) where
  open outside use {sha256, hex, spec_json, read}

  abbrev file_digest : Text → FileRead → Result FingerprintError (List ℕ)
  file_digest path (content bytes) = ok (sha256 bytes)
  file_digest path not_found = ok absent_marker
  file_digest path (unreadable reason) = err (unreadable_file path reason)

  -- What the loop over the files feeds to the hash.
  unfoldable pub hashed_files : List Text → Result FingerprintError (List ℕ)
  unfolding utf8
  hashed_files [] = ok []
  hashed_files (path ∷ paths) =
      let rest = hashed_files paths in
      require (not (escapes path)) (escaping_path path)
      >> file_digest path (read path)
      >>= λ digest. rest >>= λ more. ok (utf8 path ++ (0 ∷ (digest ++ more)))

  abbrev encoded : Result Text (List ℕ) → Result FingerprintError (List ℕ)
  encoded (err e) = err (encode e)
  encoded (ok json) = ok json

  unfoldable pub fingerprint : VmSpec → Result FingerprintError Text
  unfolding hashed_files
  fingerprint spec = do
    json ← encoded (spec_json (record spec { cache_key_files = [] }))
    files ← hashed_files (dedup (sort_by text_lt spec.cache_key_files))
    ok (take_first fingerprint_len (hex (sha256 (json ++ files))))
