-- ===== src/Tests/Objects.antt =====
-- Signed URLs, and a multipart upload to a local disk.
use ledgerly.Prelude.{ℕ, ◌≡◌, ◌≤◌, refl, String, none, some, List, [], ◌∷◌, ok, string_eq}
use ledgerly.Prelude.Dict.{lookup}
use ledgerly.Text.{concat, to_string, trim_start_matches, split, all_chars}
use ledgerly.Storage.Keys.{validated_key}
use ledgerly.Storage.Local.{Disk, complete_multipart}
use ledgerly.Storage.Signing.{Secrets, sign_with_secret, verify_secret, verify}
use ledgerly.Storage.Access.{IsKnown, signed_text, verify_sound}
use ledgerly.Storage.Multipart.{join, part_ids, put_parts, complete_multipart-joins}

abbrev hmac : String → String → String
hmac secret message = concat secret (concat "\n" message)

abbrev old_secrets : Secrets
old_secrets = record { object_store_hmac_secret = "k1"; object_store_hmac_previous_secret = none }

abbrev new_secrets : Secrets
new_secrets = record {
  object_store_hmac_secret = "k2";
  object_store_hmac_previous_secret = some "k1";
}

abbrev disk : Disk
disk = record { objects = []; multipart = ("books/b/f", []) ∷ [] }

verify_sound_example :
    (650 ≤ 700)
    × (secret : String) × IsKnown hmac new_secrets secret
    × ("k1\nPUT\nbooks/b/f\n700" ≡ hmac secret (signed_text "PUT" "books/b/f" 700))
unfolding verify verify_secret sign_with_secret to_string
verify_sound_example =
    verify_sound hmac new_secrets 650 "PUT" "books/b/f" 700 "k1\nPUT\nbooks/b/f\n700" refl

abbrev bodies : List (List ℕ)
bodies = (1 ∷ 2 ∷ []) ∷ (3 ∷ []) ∷ []

complete_multipart-joins_example :
    (after done : Disk) × (put_parts "books/b/f" 0 bodies disk ≡ (ok tt, after))
    × (complete_multipart after "books/b/f" none (part_ids 0 bodies) ≡ (ok tt, done))
    × (lookup "books/b/f" done.objects ≡ some (join bodies))
unfolding validated_key trim_start_matches split all_chars lookup
complete_multipart-joins_example =
    complete_multipart-joins "books/b/f" "books/b/f" bodies disk [] none refl refl
