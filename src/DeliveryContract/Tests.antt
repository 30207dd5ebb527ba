-- ===== src/DeliveryContract/Tests.antt =====
-- Runs of the delivery contract, with a toy of its cryptography.
use kontext.Prelude.{◌≡◌, ◌↔◌, refl, true, [], ◌∷◌, none, some, text}
use kontext.DeliveryContract.{Crypto, response_signature, verify_response_signature}
use kontext.DeliveryContract.Binding.{verify-response_signature}

-- The key and the data, in the open.
abbrev pub toy_crypto : Crypto
toy_crypto = record {
  encode_base64 = λ t. b'.' ∷ t;
  decode_base64 = λ t. elim t [ [] ↦ none | c ∷ s ↦ some s ];
  hmac_sha256 = λ key s. s;
}

verify_example :
    (verify_response_signature toy_crypto
        (text "k")
        (text "c1")
        (text "u")
        (text "{}")
        (response_signature toy_crypto (text "k") (text "c2") (text "u") (text "{}"))
      ≡ true)
    ↔ ((text "c1" ≡ text "c2") × (text "u" ≡ text "u") × (text "{}" ≡ text "{}"))
verify_example =
    verify-response_signature toy_crypto (text "k") (text "c1") (text "u") (text "{}") (text "c2")
      (text "u") (text "{}") (λ s. refl) (λ e. e) (λ z. cc z, (λ z. cc z, tt)) (λ z. cc z, tt)
      (λ z. cc z, (λ z. cc z, tt)) (λ z. cc z, tt)
