-- ===== src/Storage/Multipart.antt =====
-- On a multipart upload to the local backend of server/src/infrastructure/object_store.rs.
use ledgerly.Prelude.{
  ℕ, suc, ◌<◌, ◌≡◌, ◌≢◌, refl, sym, ap, ◌∙◌, String, false, List, [], ◌∷◌, ◌++◌, Option, none, some,
  ok, err, string_eq, arith,
}
use ledgerly.Prelude.Dict.{Dict, lookup, insert, erase, lookup-insert_self, lookup-insert_ne}
use ledgerly.Text.{digits}
use ledgerly.Text.RoundTrip.{digits-padded, has_char-digits, has_dots-digits}
use ledgerly.Storage.Keys.{validated_key}
use ledgerly.Storage.Local.{
  Disk, Io, part_id_of, is_bad_part_id, put_multipart_part, write_part, read_parts, parts_of,
  complete_multipart,
}

-- The bytes of several bodies one behind the other.
unfoldable pub join : List (List ℕ) → List ℕ
join [] = []
join (body ∷ bodies) = body ++ join bodies

-- The ids of the parts from an index on, one for each body.
unfoldable pub part_ids : ℕ → List (List ℕ) → List String
part_ids index [] = []
part_ids index (body ∷ bodies) = part_id_of index ∷ part_ids (suc index) bodies

abbrev pub after_put : Io String → Disk → Io (Unit {0}) × Disk → Io (Unit {0}) × Disk
after_put (err e) d rest = (err e, d)
after_put (ok id) d rest = rest

-- The parts from an index on, put one after another; the first that fails ends it.
unfoldable pub put_parts : String → ℕ → List (List ℕ) → Disk → Io (Unit {0}) × Disk
put_parts object_key index [] d = (ok tt, d)
put_parts object_key index (body ∷ bodies) d =
    let put = put_multipart_part d object_key none index body in
    after_put put.0 put.1 (put_parts object_key (suc index) bodies put.1)

-- What the directory of the upload holds then.
write_parts : ℕ → List (List ℕ) → Dict String (List ℕ) → Dict String (List ℕ)
write_parts index [] parts = parts
write_parts index (body ∷ bodies) parts =
    write_parts (suc index) bodies (insert (part_id_of index) body parts)

part_id_ne : (i j : ℕ) → i < j → part_id_of i ≢ part_id_of j
part_id_ne i j h e =
    let same = sym (digits-padded 8 i).0 ∙ ap (digits 0) e ∙ (digits-padded 8 j).0 in
    absurd (ground arith)

part_id-is_good : (i : ℕ) → is_bad_part_id (part_id_of i) ≡ false
part_id-is_good i =
    let (read, full) = digits-padded 8 i in
    rw
      (
        full,
        has_char-digits b'/' i _ 0 refl read,
        has_char-digits 92 i _ 0 refl read,
        has_dots-digits i _ 0 read,
      )
      refl

lookup-write_parts :
    (i index : ℕ) (bodies : List (List ℕ)) (parts : Dict String (List ℕ))
    → i < index
    → lookup (part_id_of i) (write_parts index bodies parts) ≡ lookup (part_id_of i) parts
unfolding write_parts
lookup-write_parts i index [] parts h = refl
lookup-write_parts i index (body ∷ bodies) parts h =
    lookup-write_parts i (suc index) bodies _ (omega arith)
    ∙ lookup-insert_ne (part_id_of index) (part_id_of i) body parts
        (λ e. part_id_ne i index h (sym e))

read-write_parts :
    (index : ℕ) (bodies : List (List ℕ)) (parts : Dict String (List ℕ))
    → read_parts (write_parts index bodies parts) (part_ids index bodies) ≡ ok (join bodies)
unfolding read_parts write_parts part_ids join
read-write_parts index [] parts = refl
read-write_parts index (body ∷ bodies) parts =
    let here =
      lookup-write_parts index (suc index) bodies (insert (part_id_of index) body parts)
        (omega arith)
      ∙ lookup-insert_self (part_id_of index) body parts in
    rw
      (
        part_id-is_good index,
        here,
        read-write_parts (suc index) bodies (insert (part_id_of index) body parts),
      )
      refl

put_multipart_part-writes :
    (object_key key : String) (index : ℕ) (body : List ℕ) (d : Disk) (parts : Dict String (List ℕ))
    → validated_key object_key ≡ ok key
    → lookup key d.multipart ≡ some parts
    → put_multipart_part d object_key none index body ≡ (
      ok (part_id_of index),
      record d { multipart = insert key (insert (part_id_of index) body parts) d.multipart },
    )
unfolding put_multipart_part write_part
put_multipart_part-writes object_key key index body d parts valid started =
    rw (valid, put_multipart_part, started, write_part) refl

complete_multipart-reads :
    (object_key key : String) (upload_id : Option String) (ids : List String) (bytes : List ℕ)
    (d : Disk)
    → validated_key object_key ≡ ok key
    → read_parts (parts_of (lookup key d.multipart)) ids ≡ ok bytes
    → (done : Disk) × (complete_multipart d object_key upload_id ids ≡ (ok tt, done))
      × (lookup key done.objects ≡ some bytes)
unfolding complete_multipart
complete_multipart-reads object_key key upload_id ids bytes d valid read = (
  record { objects = insert key bytes d.objects; multipart = erase key d.multipart },
  rw (valid, complete_multipart, read) refl,
  lookup-insert_self key bytes d.objects,
)

-- The directory that `put_parts` leaves.
put_parts-writes :
    (object_key key : String) (index : ℕ) (bodies : List (List ℕ)) (d : Disk)
    (parts : Dict String (List ℕ))
    → validated_key object_key ≡ ok key
    → lookup key d.multipart ≡ some parts
    → (after : Disk) × (put_parts object_key index bodies d ≡ (ok tt, after))
      × (lookup key after.multipart ≡ some (write_parts index bodies parts))
unfolding put_parts write_parts
put_parts-writes object_key key index [] d parts valid started = (d, refl, started)
put_parts-writes object_key key index (body ∷ bodies) d parts valid started =
    let parts' = insert (part_id_of index) body parts in
    let d' = record d { multipart = insert key parts' d.multipart } in
    let put = put_multipart_part-writes object_key key index body d parts valid started in
    let step : put_parts object_key index (body ∷ bodies) d
        ≡ put_parts object_key (suc index) bodies d' =
      ap (λ r. after_put r.0 r.1 (put_parts object_key (suc index) bodies r.1)) put in
    let (after, rest, written) =
      put_parts-writes object_key key (suc index) bodies d' parts' valid
        (lookup-insert_self key parts' d.multipart) in
    (after, step ∙ rest, written)

-- On a disk where the upload of an object was started: putting the parts 0, 1, 2 and so on and
-- completing with their ids succeeds, and the object is the bodies one behind the other.
pub complete_multipart-joins :
    (object_key key : String) (bodies : List (List ℕ)) (d : Disk) (parts : Dict String (List ℕ))
    (upload_id : Option String)
    → validated_key object_key ≡ ok key
    → lookup key d.multipart ≡ some parts
    → (after done : Disk) × (put_parts object_key 0 bodies d ≡ (ok tt, after))
      × (complete_multipart after object_key upload_id (part_ids 0 bodies) ≡ (ok tt, done))
      × (lookup key done.objects ≡ some (join bodies))
complete_multipart-joins object_key key bodies d parts upload_id valid started =
    let (after, put, written) = put_parts-writes object_key key 0 bodies d parts valid started in
    let ids = part_ids 0 bodies in
    let read = ap (λ o. read_parts (parts_of o) ids) written ∙ read-write_parts 0 bodies parts in
    let (done, completed, found) =
      complete_multipart-reads object_key key upload_id ids (join bodies) after valid read in
    (after, done, put, completed, found)
