-- ===== src/Prelude/Unicode.antt =====
-- Texts as code points, and what Go's `unicode` tables say of them.
use Prim.Native.Nat.{ℕ, ◌+◌, ◌<◌}
use Prim.Native.Char.{code}
use Prim.Native.String.{String}
use mathlib.Core.Path.{◌≡◌, refl, ap₂}
use mathlib.Core.Bool.{Bool, true, false, ◌&&◌, ◌||◌}
use mathlib.Core.List.{List, [], ◌∷◌, map}
use native.Mathlib.Omega.{arith}
use gigi_dc.Prelude.Tests.{leb, ltb, eqb, if◌then◌else◌}
use gigi_dc.Prelude.Lists.{is_nil}

abbrev pub codes : String → List ℕ
codes String.[] = []
codes (String.◌∷◌ c s) = code c ∷ codes s

abbrev pub ascii_lower : ℕ → Bool
ascii_lower c = leb b'a' c && leb c b'z'

abbrev pub ascii_digit : ℕ → Bool
ascii_digit c = leb b'0' c && leb c b'9'

abbrev pub ascii_to_lower : ℕ → ℕ
ascii_to_lower c = if leb b'A' c && leb c b'Z' then c + 32 else c

-- The tables of Go's `unicode` package, of which only the ASCII part is fixed here, and
-- `strings.EqualFold`.
pub record Unicode : Type 0 where
  pub is_lower : ℕ → Bool
  pub is_digit : ℕ → Bool
  pub to_lower : ℕ → ℕ
  pub is_letter : ℕ → Bool
  pub is_control : ℕ → Bool
  pub equal_fold : String → String → Bool
  pub equal_fold_refl : (s : String) → equal_fold s s ≡ true
  pub is_lower_ascii : (c : ℕ) → c < 128 → is_lower c ≡ ascii_lower c
  pub is_digit_ascii : (c : ℕ) → c < 128 → is_digit c ≡ ascii_digit c
  pub to_lower_ascii : (c : ℕ) → c < 128 → to_lower c ≡ ascii_to_lower c

abbrev ascii_letter : ℕ → Bool
ascii_letter c = ascii_lower (ascii_to_lower c)

abbrev same_codes : List ℕ → List ℕ → Bool
same_codes [] [] = true
same_codes (a ∷ as') (b ∷ bs) = eqb a b && same_codes as' bs
same_codes _ _ = false

pub same_codes_refl : (s : List ℕ) → same_codes s s ≡ true
same_codes_refl [] = refl
same_codes_refl (a ∷ s) = ground (arith, same_codes_refl s)

abbrev ascii_fold : String → String → Bool
ascii_fold s t = same_codes (map ascii_to_lower (codes s)) (map ascii_to_lower (codes t))

-- The tables that know of ASCII alone.
abbrev pub ascii : Unicode
ascii = record {
  is_lower = ascii_lower;
  is_digit = ascii_digit;
  to_lower = ascii_to_lower;
  is_letter = ascii_letter;
  is_control = λ c. ltb c 32 || eqb c 127;
  equal_fold = ascii_fold;
  equal_fold_refl = λ s. same_codes_refl (map ascii_to_lower (codes s));
  is_lower_ascii = λ c h. refl;
  is_digit_ascii = λ c h. refl;
  to_lower_ascii = λ c h. refl;
}

-- `strings.HasPrefix`, on code points.
unfoldable pub has_prefix : List ℕ → List ℕ → Bool
has_prefix s [] = true
has_prefix [] (p ∷ ps) = false
has_prefix (c ∷ s) (p ∷ ps) = eqb c p && has_prefix s ps

-- `strings.Contains`, on code points.
unfoldable pub contains_text : List ℕ → List ℕ → Bool
unfolding has_prefix
contains_text [] sub = is_nil sub
contains_text (c ∷ s) sub = has_prefix (c ∷ s) sub || contains_text s sub

abbrev is_ascii : List ℕ → Bool
is_ascii [] = true
is_ascii (c ∷ s) = ltb c 128 && is_ascii s

-- `strings.ToLower` on an ASCII text.
pub map-to_lower_ascii :
    (u : Unicode) (s : List ℕ) → is_ascii s ≡ true → map u.to_lower s ≡ map ascii_to_lower s
map-to_lower_ascii u [] h = refl
map-to_lower_ascii u (c ∷ s) h =
    ap₂ ◌∷◌ (u.to_lower_ascii c (ground arith)) (map-to_lower_ascii u s (ground arith))
