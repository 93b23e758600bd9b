-- ===== src/Storage/Local.antt =====
-- The local backend of server/src/infrastructure/object_store.rs (`ObjectStoreClient::Local`). The disk
-- is a dictionary of the objects by path and one of the directories of multipart uploads, each a
-- dictionary of its parts: no path is a directory of another or lies under `.multipart`, and a write
-- fails only where the directory is missing.
use ledgerly.Prelude.{
  ℕ, String, Bool, ◌||◌, List, [], ◌∷◌, ◌++◌, Option, none, some, length, Result, ok, err, ◌>>=◌,
  ◌>>◌, refuse_if, ok_or, string_eq,
}
use ledgerly.Prelude.Dict.{Dict, lookup, insert, erase}
use ledgerly.Text.{to_string_padded, is_empty, has_char, has_dots}
use ledgerly.Attachments.Objects.{ObjectStore, ObjectMetadata}
use ledgerly.Storage.Keys.{validated_key}

pub record Disk : Type 0 where
  pub objects : Dict String (List ℕ)
  pub multipart : Dict String (Dict String (List ℕ))

abbrev pub Io : Type 0 → Type 0
Io A = Result A (Unit {0})

abbrev pub size_of : Option (List ℕ) → Option ℕ
size_of none = none
size_of (some bytes) = some (length bytes)

-- `path_of` is `ObjectPath::from` of the crate `object_store`, which may encode characters of a key. A
-- multipart upload is completed at the key itself.
module _ (path_of : String → String) where
  -- `put_bytes`
  unfoldable pub put_bytes : Disk → String → List ℕ → Io (Unit {0}) × Disk
  put_bytes d object_key bytes = elim (validated_key object_key) [
    | err e ↦ (err e, d)
    | ok key ↦ (ok tt, record d { objects = insert (path_of key) bytes d.objects })
  ]

  -- `get_bytes`
  unfoldable pub get_bytes : Disk → String → Io (Option (List ℕ))
  get_bytes d object_key = do key ← validated_key object_key; ok (lookup (path_of key) d.objects)

  -- `delete`
  unfoldable pub delete : Disk → String → Io (Unit {0}) × Disk
  delete d object_key = elim (validated_key object_key) [
    | err e ↦ (err e, d)
    | ok key ↦ (ok tt, record d { objects = erase (path_of key) d.objects })
  ]

  -- `object_size`
  unfoldable pub object_size : Disk → String → Io (Option ℕ)
  object_size d object_key = do
    key ← validated_key object_key
    ok (size_of (lookup (path_of key) d.objects))

  -- `object_metadata`; the digest is SHA-256 in hexadecimal.
  unfoldable pub object_metadata : (List ℕ → String) → Disk → String → Io ObjectMetadata
  object_metadata digest d object_key = do
    key ← validated_key object_key
    bytes ← ok_or (lookup (path_of key) d.objects) tt
    ok (record { size_bytes = length bytes; sha256 = digest bytes })

-- `create_dir_all`
abbrev pub make_dir :
    String → Dict String (Dict String (List ℕ)) → Dict String (Dict String (List ℕ))
make_dir key dirs = elim (lookup key dirs) [ some _ ↦ dirs | none ↦ insert key [] dirs ]

-- `start_multipart_for_config`
unfoldable pub start_multipart : Disk → String → Io (Option String) × Disk
start_multipart d object_key = elim (validated_key object_key) [
  | err e ↦ (err e, d)
  | ok key ↦ (ok none, record d { multipart = make_dir key d.multipart })
]

-- `format!("{part_number:08}")`
abbrev pub part_id_of : ℕ → String
part_id_of index = to_string_padded 8 index

unfoldable pub write_part : Disk → String → ℕ → List ℕ → Io String × Disk
write_part d key index bytes = elim (lookup key d.multipart) [
  | none ↦ (err tt, d)
  | some parts ↦ (
    ok (part_id_of index),
    record d { multipart = insert key (insert (part_id_of index) bytes parts) d.multipart },
  )
]

-- `put_multipart_part_for_config`; the upload id is not used.
unfoldable pub put_multipart_part : Disk → String → Option String → ℕ → List ℕ → Io String × Disk
unfolding write_part
put_multipart_part d object_key upload_id index bytes = elim (validated_key object_key) [
  | err e ↦ (err e, d)
  | ok key ↦ write_part d key index bytes
]

-- A part id that is no file name of a part.
abbrev pub is_bad_part_id : String → Bool
is_bad_part_id part_id =
    is_empty part_id || has_char b'/' part_id || has_char 92 part_id || has_dots part_id

-- The bytes of the parts one behind the other.
unfoldable pub read_parts : Dict String (List ℕ) → List String → Io (List ℕ)
read_parts parts [] = ok []
read_parts parts (part_id ∷ part_ids) = do
  refuse_if (is_bad_part_id part_id) tt
  bytes ← ok_or (lookup part_id parts) tt
  rest ← read_parts parts part_ids
  ok (bytes ++ rest)

abbrev pub parts_of : Option (Dict String (List ℕ)) → Dict String (List ℕ)
parts_of none = []
parts_of (some parts) = parts

-- `complete_multipart_for_config`; an error leaves the temporary file, which is no object.
unfoldable pub complete_multipart :
    Disk → String → Option String → List String → Io (Unit {0}) × Disk
unfolding read_parts
complete_multipart d object_key upload_id part_ids = elim (validated_key object_key) [
  | err e ↦ (err e, d)
  | ok key ↦ elim (read_parts (parts_of (lookup key d.multipart)) part_ids) [
    | err e ↦ (err e, d)
    | ok bytes ↦
        (ok tt, record { objects = insert key bytes d.objects; multipart = erase key d.multipart })
  ]
]

-- `abort_multipart_for_config`
unfoldable pub abort_multipart : Disk → String → Option String → Io (Unit {0}) × Disk
abort_multipart d object_key upload_id = elim (validated_key object_key) [
  | err e ↦ (err e, d)
  | ok key ↦ (ok tt, record d { multipart = erase key d.multipart })
]

-- The local backend as the attachments use it: no direct URLs, and `sign` for the others.
abbrev pub local_store :
    (String → String) → (List ℕ → String) → (String → String → ℕ → String) → ObjectStore Disk
local_store path_of digest sign = record {
  ensure_dir = λ d. d;
  start_multipart = start_multipart;
  put_multipart_part = put_multipart_part;
  complete_multipart = complete_multipart;
  abort_multipart = abort_multipart;
  delete_object = delete path_of;
  object_size = object_size path_of;
  object_metadata = object_metadata path_of digest;
  direct_url = λ d method key expires_in. ok none;
  sign_url = λ d. sign;
  part_upload_url = λ d key upload_id part_number expires_in. ok none;
}
