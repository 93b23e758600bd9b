-- ===== src/Storage/Keys.antt =====
-- `validated_key` of server/src/infrastructure/object_store.rs.
use ledgerly.Prelude.{String, Bool, ◌||◌, Result, ok, err, any, ◌==◌, if◌then◌else◌}
use ledgerly.Text.{trim_start_matches, split, is_empty, has_char}
use text.Mathlib.Text.{starts_with}

-- `segment.is_empty() || segment == "." || segment == ".."`
abbrev pub is_bad_segment : String → Bool
is_bad_segment segment = is_empty segment || segment == "." || segment == ".."

-- An absolute path is one that begins with `/`; an error carries no more than that it is one.
unfoldable pub validated_key : String → Result String (Unit {0})
validated_key object_key =
    let key = trim_start_matches b'/' object_key in
    if is_empty key || has_char 92 key || starts_with key "/" || any is_bad_segment (split b'/' key)
    then err tt
    else ok key
