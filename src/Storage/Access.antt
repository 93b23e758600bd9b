-- ===== src/Storage/Access.antt =====
-- On who may read and write objects, of `verify`, `put_object` and `get_object` in
-- server/src/infrastructure/object_store.rs.
use ledgerly.Prelude.{
  ℕ, ◌≤◌, [], ◌∷◌, ◌≡◌, ◌↔◌, ◌⊎◌, refl, sym, inl, inr, String, true, List, Option, none, some, ltb,
  Bool-cases, string_eq, arith, eq_iff,
}
use ledgerly.Prelude.Int.{pos}
use ledgerly.Text.{concat, to_string}
use ledgerly.Storage.Signing.{Secrets, sign_with_secret, verify_secret, verify_previous, verify}

-- The lines of a message, with a line feed between two of them.
unfoldable pub lines : List String → String
lines [] = ""
lines (line ∷ []) = line
lines (line ∷ next ∷ rest) = concat line (concat "\n" (lines (next ∷ rest)))

abbrev pub signed_text : String → String → ℕ → String
signed_text method key expires = lines (method ∷ key ∷ to_string (pos expires) ∷ [])

module _ (hmac : String → String → String) where
  -- `secret` is one of the two that the server knows.
  abbrev pub IsKnown : Secrets → String → Type 0
  IsKnown secrets secret =
      (secrets.object_store_hmac_secret ≡ secret)
      ⊎ (secrets.object_store_hmac_previous_secret ≡ some secret)

  verify_secret_iff :
      (secret method key : String) (expires : ℕ) (sig : String)
      → (verify_secret hmac secret method key expires sig ≡ true)
        ↔ (sign_with_secret hmac secret method key expires ≡ sig)
  unfolding verify_secret
  verify_secret_iff secret method key expires sig = eq_iff _ sig

  previous_inv :
      (previous : Option String) (method key : String) (expires : ℕ) (sig : String)
      → verify_previous hmac previous method key expires sig ≡ true
      → (secret : String) × (previous ≡ some secret)
        × (sign_with_secret hmac secret method key expires ≡ sig)
  previous_inv none method key expires sig h = absurd (cc)
  previous_inv (some secret) method key expires sig h =
      (secret, refl, (verify_secret_iff secret method key expires sig).0 h)

  -- A signature that `verify` accepts is not expired, and is the HMAC, under the current or the previous
  -- secret, of three lines: the method, the key, and the expiry in decimal.
  pub verify_sound :
      (secrets : Secrets) (now : ℕ) (method key : String) (expires : ℕ) (sig : String)
      → verify hmac secrets now method key expires sig ≡ true
      → (now ≤ expires)
        × (secret : String) × IsKnown secrets secret
        × (sig ≡ hmac secret (signed_text method key expires))
  unfolding verify sign_with_secret lines
  verify_sound secrets now method key expires sig h =
      let current = secrets.object_store_hmac_secret in
      elim (Bool-cases (ltb expires now)) [
        | inl late ↦ absurd (cc (rw (late, verify) at h))
        | inr fresh ↦ elim (Bool-cases (verify_secret hmac current method key expires sig)) [
          | inl match ↦ (
            ground arith,
            current,
            inl refl,
            sym ((verify_secret_iff current method key expires sig).0 match),
          )
          | inr other ↦
              let (secret, is, signed) =
                previous_inv _ method key expires sig (rw (fresh, verify, other) at h) in
              (ground arith, secret, inr is, sym signed)
        ]
      ]
