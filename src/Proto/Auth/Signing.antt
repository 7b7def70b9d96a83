-- ===== src/Proto/Auth/Signing.antt =====
-- What SignHeader and VerifyHeader promise each other.
use mathlib.Core.List.{append_assoc}
use multi_send.Base.{
  Bool-cases, ◌⊎◌, inl, inr, ℕ, ◌≡◌, ◌≢◌, refl, sym, ap, ◌∙◌, true, List, [], ◌∷◌, ◌++◌, Option,
  some, none,
}
use multi_send.Base.Text.{Text, same_text, same_text_iff, hex_encode, hex_decode}
use multi_send.Base.Spaces.{AreBytes, hex_decode-hex_encode}
use multi_send.Base.Joined.{join_nul}
use multi_send.Proto.{Header}
use multi_send.Proto.Auth.{auth_payload, sign_header, check_mac, verify_header}
use multi_send.Proto.Auth.Payload.{IsPlain, auth_payload-injective}

auth_payload_auth : (h : Header) → auth_payload (record h { auth = [] }) ≡ auth_payload h
unfolding auth_payload
auth_payload_auth h = refl

auth_payload_shift :
    (h : Header) (a b c : Text)
    → auth_payload (record h { lab_path = a ++ 0 ∷ b; receive_rel_path = c })
      ≡ auth_payload (record h { lab_path = a; receive_rel_path = b ++ 0 ∷ c })
unfolding auth_payload join_nul
auth_payload_shift h a b c = simp append_assoc

module _ (mac : List ℕ → Text → List ℕ) where
  -- A header that was signed verifies under the same secret, where the MAC gives bytes, and at least
  -- one. (No secret signs nothing and verifies everything.)
  pub verify_header-sign_header :
      (h : Header) (secret : List ℕ)
      → ((key : List ℕ) (message : Text) → AreBytes (mac key message))
      → ((key : List ℕ) (message : Text) → mac key message ≢ [])
      → verify_header mac (sign_header mac h secret) secret ≡ true
  unfolding verify_header sign_header
  verify_header-sign_header h [] bytes some_bytes = refl
  verify_header-sign_header h (k ∷ secret) bytes some_bytes =
      let plain = record h { auth = [] } in
      rw
        (hex_decode-hex_encode (mac (k ∷ secret) (auth_payload plain))
          (bytes (k ∷ secret) (auth_payload plain)))
        (accepted (mac (k ∷ secret) (auth_payload plain))
          (some_bytes (k ∷ secret) (auth_payload plain)) refl)
    where
      accepted :
          (code : List ℕ)
          → code ≢ []
          → mac (k ∷ secret) (auth_payload (record h { auth = [] })) ≡ code
          → check_mac mac
              (record h {
                auth = hex_encode (mac (k ∷ secret) (auth_payload (record h { auth = [] })));
              })
              (k ∷ secret)
              (some code)
            ≡ true
      accepted [] ne e = absurd (ne refl)
      accepted (b ∷ code) ne e = (same_text_iff _ _).1 e

  -- A header that verifies under a secret carries exactly the MAC of its own fields.
  verify_header-mac :
      (h : Header) (secret : List ℕ)
      → secret ≢ []
      → verify_header mac h secret ≡ true
      → hex_decode h.auth ≡ some (mac secret (auth_payload (record h { auth = [] })))
  unfolding verify_header
  verify_header-mac h [] ne v = absurd (ne refl)
  verify_header-mac h (k ∷ secret) ne v = decoded (hex_decode h.auth) refl v
    where
      decoded :
          (o : Option (List ℕ))
          → hex_decode h.auth ≡ o
          → check_mac mac h (k ∷ secret) o ≡ true
          → hex_decode h.auth ≡ some (mac (k ∷ secret) (auth_payload (record h { auth = [] })))
      decoded none e c = cc
      decoded (some []) e c = cc
      decoded (some (b ∷ bs)) e c = e ∙ ap some (sym ((same_text_iff _ (b ∷ bs)).0 c))

  -- A signature fits only one header without NUL bytes: two that verify with the same signature under
  -- one secret are equal in every field, or else they show a collision of the MAC.
  pub verify_header_unique :
      (g h : Header) (secret : List ℕ)
      → secret ≢ []
      → IsPlain g
      → IsPlain h
      → verify_header mac g secret ≡ true
      → verify_header mac h secret ≡ true
      → g.auth ≡ h.auth
      → (g ≡ h) ⊎ ((x : Text) × (y : Text) × (x ≢ y) × (mac secret x ≡ mac secret y))
  verify_header_unique g h secret ne p q vg vh same =
      let x = auth_payload (record g { auth = [] }) in
      let y = auth_payload (record h { auth = [] }) in
      let macs : mac secret x ≡ mac secret y =
        cc (verify_header-mac g secret ne vg, verify_header-mac h secret ne vh) in
      elim (Bool-cases (same_text x y)) [
        | inl e ↦
            let payloads : auth_payload g ≡ auth_payload h =
              sym (auth_payload_auth g) ∙ (same_text_iff x y).0 e ∙ auth_payload_auth h in
            inl (cc (auth_payload-injective g h p q payloads))
        | inr e ↦ inr (x, y, (λ k. cc ((same_text_iff x y).1 k)), macs)
      ]

  -- With NUL bytes a signature does not tell a field's end from the next field: a NUL and what
  -- follows it can move from the end of the lab path to the front of the relative path.
  pub verify_header_shift :
      (h : Header) (secret : List ℕ) (a b c : Text)
      → verify_header mac (record h { lab_path = a ++ 0 ∷ b; receive_rel_path = c }) secret
        ≡ verify_header mac (record h { lab_path = a; receive_rel_path = b ++ 0 ∷ c }) secret
  unfolding verify_header
  verify_header_shift h [] a b c = refl
  verify_header_shift h (k ∷ secret) a b c = shifted (hex_decode h.auth)
    where
      shifted :
          (o : Option (List ℕ))
          → check_mac mac (record h { lab_path = a ++ 0 ∷ b; receive_rel_path = c }) (k ∷ secret) o
            ≡ check_mac mac
                (record h { lab_path = a; receive_rel_path = b ++ 0 ∷ c })
                (k ∷ secret)
                o
      shifted none = refl
      shifted (some []) = refl
      shifted (some (x ∷ xs)) =
          ap (λ m. same_text (mac (k ∷ secret) m) (x ∷ xs))
            (auth_payload_shift (record h { auth = [] }) a b c)
