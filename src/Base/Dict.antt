-- ===== src/Base/Dict.antt =====
-- Go maps with string keys, as association lists. A missing key reads as the zero value given.
use text.Mathlib.Text.{◌==◌}
use text.Mathlib.TextEquality.{eq_iff}
use multi_send.Base.{
  ◌||◌, false, ◌≢◌, ◌≡◌, refl, ◌↔◌, Bool, List, [], ◌∷◌, String, arith, if◌then◌else◌, true,
}

-- `==` on strings, under a name of its own.
abbrev pub str_eq : String → String → Bool
str_eq s t = s == t

pub str_eq_iff : (s t : String) → (str_eq s t ≡ true) ↔ (s ≡ t)
str_eq_iff s t = eq_iff s t

pub str_eq_refl : (s : String) → str_eq s s ≡ true
str_eq_refl s = (eq_iff s s).1 refl

abbrev pub Dict {ℓ} : Type ℓ → Type ℓ
Dict V = List (String × V)

-- A lookup reads the first entry of its key; a write replaces that entry or adds one at the end.
module _ {ℓ} {V : Type ℓ} where
  -- `m[k]`, with the zero value of `V` for a missing key.
  unfoldable pub at : V → Dict V → String → V
  at z [] key = z
  at z (entry ∷ entries) key =
      let later = at z entries key in if str_eq entry.0 key then entry.1 else later

  -- `_, ok := m[k]`
  unfoldable pub has_key : Dict V → String → Bool
  has_key [] key = false
  has_key (entry ∷ entries) key = str_eq entry.0 key || has_key entries key

  -- `m[k] = value`
  unfoldable pub put : Dict V → String → V → Dict V
  put [] key value = (key, value) ∷ []
  put (entry ∷ entries) key value =
      let later = put entries key value in
      if str_eq entry.0 key then (key, value) ∷ entries else entry ∷ later

  pub at-put :
      (z : V) (entries : Dict V) (written read : String) (value : V)
      → at z (put entries written value) read
        ≡ (if str_eq written read then value else at z entries read)
  unfolding at put
  at-put z [] written read value = refl
  at-put z (entry ∷ entries) written read value = ground (
    arith,
    at-put z entries written read value,
    eq_iff entry.0 written,
    eq_iff written read,
    eq_iff entry.0 read,
  )

  pub at-put_self :
      (z : V) (entries : Dict V) (key : String) (value : V)
      → at z (put entries key value) key ≡ value
  at-put_self z entries key value = simp (at-put, str_eq_refl)

  pub at-put_ne :
      (z : V) (entries : Dict V) (written read : String) (value : V)
      → written ≢ read
      → at z (put entries written value) read ≡ at z entries read
  at-put_ne z entries written read value ne =
      ground (arith, at-put z entries written read value, eq_iff written read)
