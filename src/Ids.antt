-- ===== src/Ids.antt =====
-- Canonical UUID4 texts (src/alice_brain_hermes/ids.py). A text equals `str(UUID(text))`, with version 4
-- and the RFC 4122 variant, exactly when it has this form.
use alice_brain_hermes.Prelude.{
  ℕ, ◌+◌, String, ◌≡◌, refl, Bool, true, false, ◌&&◌, ◌||◌, List, [], ◌∷◌, leb, ◌==◌, if◌then◌else◌,
  Result, ok, value_error, guard, ◌>>◌,
}
use alice_brain_hermes.Text.{codes}

is_hex : ℕ → Bool
is_hex c = (leb b'0' c && leb c b'9') || (leb b'a' c && leb c b'f')

-- The character that stands at a position.
fits_at : ℕ → ℕ → Bool
unfolding is_hex
fits_at i c =
    if i == 8 || i == 13 || i == 18 || i == 23
    then c == b'-'
    else if i == 14
    then c == b'4'
    else if i == 19
    then c == b'8' || c == b'9' || c == b'a' || c == b'b'
    else is_hex c

fits_from : ℕ → List ℕ → Bool
unfolding fits_at
fits_from i [] = i == 36
fits_from i (c ∷ cs) = fits_at i c && fits_from (i + 1) cs

unfoldable pub is_canonical_uuid4 : String → Bool
unfolding fits_from
is_canonical_uuid4 s = fits_from 0 (codes s)

unfoldable pub validate_id : String → Result String
validate_id value = do guard (is_canonical_uuid4 value) value_error; ok value

canonical : is_canonical_uuid4 "0f8fad5b-d9cb-469f-a165-70867728950e" ≡ true
unfolding is_canonical_uuid4
canonical = refl

upper_case : is_canonical_uuid4 "0F8FAD5B-D9CB-469F-A165-70867728950E" ≡ false
unfolding is_canonical_uuid4
upper_case = refl

version_one : is_canonical_uuid4 "0f8fad5b-d9cb-169f-a165-70867728950e" ≡ false
unfolding is_canonical_uuid4
version_one = refl
