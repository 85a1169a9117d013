-- ===== src/Auth/Signature.antt =====
-- Signed tokens: what `sign` makes `verify` accepts, and `verify` accepts nothing else than a payload
-- beside its own MAC.
use my_eink_library.Common.{
  Option-cases, All, Text, text_eq_refl, text_eq_iff, ◌≡◌, refl, inl, inr, some, List, [], ◌∷◌,
  arith,
}
use my_eink_library.Encoding.Base64.{encode, decode, IsByte, decode-encode, encode-no_dot}
use my_eink_library.Encoding.Split.{split_n, cut_at}
use my_eink_library.Auth.Session.{sign, verify, verify_parts}
use my_eink_library.Encoding.Utf8.{Bytes}

module _ (mac : Bytes → Bytes) where
  parts_of_sign :
      (payload : Bytes)
      → split_n b'.' 2 (sign mac payload) ≡ encode payload ∷ encode (mac payload) ∷ []
  unfolding split_n sign
  parts_of_sign payload =
      ground (arith, cut_at b'.' (encode payload) (encode (mac payload)) (encode-no_dot payload))

  -- A payload of bytes whose MAC is bytes is what its signed token verifies as.
  pub verify-sign :
      (payload : Bytes)
      → All IsByte payload
      → All IsByte (mac payload)
      → verify mac (sign mac payload) ≡ some payload
  unfolding verify
  verify-sign payload bytes mac_bytes = rw (parts_of_sign payload) (
      ground (
        arith,
        decode-encode payload bytes,
        decode-encode (mac payload) mac_bytes,
        text_eq_refl (mac payload),
      ))

  signature_of :
      (p q : Text) (payload : Bytes)
      → verify_parts mac (p ∷ q ∷ []) ≡ some payload
      → decode q ≡ some (mac payload)
  unfolding verify_parts
  signature_of p q payload h = elim (Option-cases (decode p)) [
    | inl bad ↦ absurd (ground (arith, bad))
    | inr (found, good) ↦ elim (Option-cases (decode q)) [
      | inl bad ↦ absurd (ground (arith, good, bad))
      | inr (signature, read) ↦ ground (arith, good, read, text_eq_iff (mac found) signature)
    ]
  ]

  parts_signed :
      (parts : List Text) (payload : Bytes)
      → verify_parts mac parts ≡ some payload
      → (p : Text) × (q : Text) × (parts ≡ p ∷ q ∷ [])
        × (decode p ≡ some payload)
        × (decode q ≡ some (mac payload))
  unfolding verify_parts
  parts_signed [] payload h = ground arith
  parts_signed (p ∷ []) payload h = ground arith
  parts_signed (p ∷ q ∷ []) payload h = (p, q, refl, ground arith, signature_of p q payload h)
  parts_signed (p ∷ q ∷ r ∷ rest) payload h = ground arith

  -- A token that verifies as a payload carries that payload and its MAC: whoever makes one knows the
  -- MAC of the payload.
  pub verify_sound :
      (token : Text) (payload : Bytes)
      → verify mac token ≡ some payload
      → (p : Text) × (q : Text) × (split_n b'.' 2 token ≡ p ∷ q ∷ [])
        × (decode p ≡ some payload)
        × (decode q ≡ some (mac payload))
  unfolding verify
  verify_sound token payload h = parts_signed (split_n b'.' 2 token) payload h
