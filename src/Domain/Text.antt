-- ===== src/Domain/Text.antt =====
-- `_digest` and `_identifier` of src/joinlint/runtime/domain.py, as tests: `false` is `ValueError`.
use Prim.Native.Char.{code}
use joinlint.Prelude.{ℕ, String, Bool, ◌&&◌, ◌||◌, List, [], ◌∷◌, ltb, leb, nat_eq, length, all}

-- The code points of a text.
abbrev pub codes : String → List ℕ
codes String.[] = []
codes (String.◌∷◌ c s) = code c ∷ codes s

-- `len(value)`
abbrev pub text_length : String → ℕ
text_length s = length (codes s)

-- `lo <= c <= hi`
abbrev pub between : ℕ → ℕ → ℕ → Bool
between lo hi c = leb lo c && leb c hi

is_hex : ℕ → Bool
is_hex c = between b'0' b'9' c || between b'a' b'f' c

unfoldable pub is_digest : String → Bool
unfolding is_hex
is_digest value = nat_eq (text_length value) 64 && all is_hex (codes value)

-- A character of `[A-Za-z0-9_.:-]`.
is_identifier_char : ℕ → Bool
is_identifier_char c =
    between b'A' b'Z' c
    || between b'a' b'z' c
    || between b'0' b'9' c
    || nat_eq c b'_'
    || nat_eq c b'.'
    || nat_eq c b':'
    || nat_eq c b'-'

unfoldable pub is_identifier : String → Bool
unfolding is_identifier_char
is_identifier value = between 1 256 (text_length value) && all is_identifier_char (codes value)

-- `0 < len(value) <= 256` and no NUL.
unfoldable pub is_bounded_text : String → Bool
is_bounded_text value = between 1 256 (text_length value) && all (λ c. ltb 0 c) (codes value)
