-- ===== src/DeliveryContract/Binding.antt =====
-- What the signature of a response binds.
use kontext.Prelude.{
  ◌≡◌, ◌≢◌, ◌↔◌, refl, sym, true, [], ◌∷◌, ◌++◌, some, Text, nat_eq, list_eq, beq_refl, eq_of_beq,
  arith,
}
use kontext.DeliveryContract.{
  delivery_api_version, Crypto, signed_bytes, response_mac, response_signature,
  verify_response_signature,
}

-- No zero byte.
abbrev pub NoZero : Text → Type 0
NoZero [] = Unit
NoZero (c ∷ s) = (c ≢ 0) × NoZero s

cut_injective :
    (s t : Text) (u v : Text) → NoZero s → NoZero t → s ++ 0 ∷ u ≡ t ++ 0 ∷ v → (s ≡ t) × (u ≡ v)
cut_injective [] [] u v hs ht e = (refl, ground arith)
cut_injective [] (d ∷ t) u v hs ht e = let z : 0 ≡ d = ground arith in absurd (ht.0 (sym z))
cut_injective (c ∷ s) [] u v hs ht e = let z : c ≡ 0 = ground arith in absurd (hs.0 z)
cut_injective (c ∷ s) (d ∷ t) u v hs ht e =
    let head : c ≡ d = ground arith in
    let tail : s ++ 0 ∷ u ≡ t ++ 0 ∷ v = ground arith in
    let (same, rest) = cut_injective s t u v hs.1 ht.1 tail in (ground arith, rest)

prefix_injective : (p s t : Text) → p ++ s ≡ p ++ t → s ≡ t
prefix_injective [] s t e = e
prefix_injective (c ∷ p) s t e =
    let tail : p ++ s ≡ p ++ t = ground arith in prefix_injective p s t tail

signed_bytes_injective :
    (c d u v b b' : Text)
    → NoZero c
    → NoZero d
    → NoZero u
    → NoZero v
    → signed_bytes c u b ≡ signed_bytes d v b'
    → (c ≡ d) × (u ≡ v) × (b ≡ b')
unfolding signed_bytes
signed_bytes_injective c d u v b b' hc hd hu hv e =
    let after_version : 0 ∷ (c ++ 0 ∷ (u ++ 0 ∷ b)) ≡ 0 ∷ (d ++ 0 ∷ (v ++ 0 ∷ b')) =
      prefix_injective delivery_api_version _ _ e in
    let parts : c ++ 0 ∷ (u ++ 0 ∷ b) ≡ d ++ 0 ∷ (v ++ 0 ∷ b') = ground arith in
    let (same_challenge, rest) = cut_injective c d _ _ hc hd parts in
    let (same_uid, same_body) = cut_injective u v b b' hu hv rest in
    (same_challenge, same_uid, same_body)

module _ (crypto : Crypto) where
  -- A response whose signature was made with the same token verifies for a challenge, a run UID and a
  -- body exactly if it was made for these, if base64 decodes what it encodes and HMAC does not
  -- collide on the two texts, when the challenges and UIDs have no zero byte.
  pub verify-response_signature :
      (token c u b d v b' : Text)
      → ((s : Text) → crypto.decode_base64 (crypto.encode_base64 s) ≡ some s)
      → (crypto.hmac_sha256 token (signed_bytes c u b)
            ≡ crypto.hmac_sha256 token (signed_bytes d v b')
          → signed_bytes c u b ≡ signed_bytes d v b')
      → NoZero c
      → NoZero u
      → NoZero d
      → NoZero v
      → (verify_response_signature crypto token c u b (response_signature crypto token d v b')
          ≡ true)
        ↔ ((c ≡ d) × (u ≡ v) × (b ≡ b'))
  unfolding verify_response_signature response_signature response_mac
  verify-response_signature token c u b d v b' decodes apart hc hu hd hv = rw (decodes _) (
    λ h.
        let same =
          eq_of_beq (crypto.hmac_sha256 token (signed_bytes d v b'))
            (crypto.hmac_sha256 token (signed_bytes c u b)) h in
        signed_bytes_injective c d u v b b' hc hd hu hv (apart (sym same)),
    λ s. rw (s.0, s.1, s.2) (beq_refl {A = Text} (response_mac crypto token d v b')),
  )
