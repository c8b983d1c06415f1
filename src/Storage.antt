-- ===== src/Storage.antt =====
-- Uploaded bytes in object storage (src/finance_rag/storage/object_store.py). A bucket is a list of
-- objects, the last one written first; SHA-256 and the failures of the client are parameters.
use finance_rag.Prelude.{
  ℕ, Bool, Option, none, some, List, [], ◌∷◌, ◌++◌, ◌==◌, if◌then◌else◌, take, length, is_empty,
  is_some, map,
}
use finance_rag.Text.{Text, codes, text_eq, split}
use finance_rag.Guardrails.Answerability.{Attempt, returned, failed}
use finance_rag.Evaluation.{last_name}

-- `StoredObject`
pub record StoredObject : Type 0 where
  pub uri : Text
  pub key : Text
  pub size : ℕ
  pub checksum : Text

-- `S3ObjectStore`, its prefix without slashes at the ends, and the objects of its bucket.
pub record S3ObjectStore : Type 0 where
  pub bucket : Text
  pub prefix : Text
  pub objects : List (Text × List ℕ)

-- `S3ObjectStore._key`
unfoldable pub full_key : S3ObjectStore → Text → Text
full_key s key = if is_empty s.prefix then key else s.prefix ++ codes "/" ++ key

unfoldable pub find_object : Text → List (Text × List ℕ) → Option (List ℕ)
find_object key [] = none
find_object key ((k, stored) ∷ objects) =
    if text_eq k key then some stored else find_object key objects

-- `S3ObjectStore.get`, `none` where the bucket has no such object.
unfoldable pub get : S3ObjectStore → Text → Option (List ℕ)
get s key = find_object (full_key s key) s.objects

-- `S3ObjectStore.exists`
unfoldable pub exists : S3ObjectStore → Text → Bool
exists s key = is_some (find_object (full_key s key) s.objects)

-- `str.replace("/", "_").replace("\\", "_")`
unfoldable pub underscores : Text → Text
underscores s = map (λ c. if c == b'/' then b'_' else if c == 92 then b'_' else c) s

module _ (digest : List ℕ → Text) where
  -- `content_key`
  unfoldable pub content_key : Text → Text → List ℕ → Text
  content_key org_id filename content =
      let safe = underscores (last_name (split b'/' filename)) in
      let name : Text = if is_empty safe then codes "upload.bin" else safe in
      org_id ++ codes "/uploads/" ++ take 16 (digest content) ++ codes "/" ++ name

  -- `S3ObjectStore.put`. The client stores the object, or raises with a message: then nothing is
  -- stored and the exception leaves the call.
  unfoldable pub put :
      (Text → List ℕ → Option Text)
      → Text
      → List ℕ
      → S3ObjectStore
      → Attempt StoredObject × S3ObjectStore
  put client key content s = elim (client (full_key s key) content) [
    | some e ↦ (failed e, s)
    | none ↦ (
      returned (record {
        uri = codes "s3://" ++ s.bucket ++ codes "/" ++ full_key s key;
        key = key;
        size = length content;
        checksum = digest content;
      }),
      record s { objects = (full_key s key, content) ∷ s.objects },
    )
  ]
