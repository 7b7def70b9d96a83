-- ===== src/Config/Secrets.antt =====
-- The secret of a node, as GenerateSecret makes it.
use multi_send.Base.{ℕ, ◌≡◌, refl, true, List, ◌∷◌}
use multi_send.Base.Text.{hex_encode}
use multi_send.Base.Spaces.{AreBytes, trim_space_id, hex_encode-HasNoSpace, hex_decode-hex_encode}
use multi_send.Config.{Config, secret_bytes, auth_secret}

-- Where authentication is required, the bytes that key the MAC are the random bytes whose hexadecimal
-- text is the node's secret; they are bytes, and at least one.
pub auth_secret-hex_encode :
    (c : Config) (b : ℕ) (bytes : List ℕ)
    → AreBytes (b ∷ bytes)
    → c.node_secret ≡ hex_encode (b ∷ bytes)
    → c.require_auth ≡ true
    → auth_secret c ≡ b ∷ bytes
unfolding auth_secret secret_bytes
auth_secret-hex_encode c b bytes h e r =
    rw
      (
        r,
        e,
        trim_space_id (hex_encode (b ∷ bytes)) (hex_encode-HasNoSpace (b ∷ bytes)),
        hex_decode-hex_encode (b ∷ bytes) h,
      )
      (unfold hex_encode in refl)
