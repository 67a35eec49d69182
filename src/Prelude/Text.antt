-- ===== src/Prelude/Text.antt =====
-- What the source uses of Go's `strings` and `unicode` packages, over texts of code points.
use Prim.Native.Nat.{ℕ, zero, suc, ◌+◌, ◌-◌, ◌≤◌, Ordering, compare}
use Prim.Native.Char.{Char, code, len_utf8}
use Prim.Native.String.{String, [], ◌∷◌, ◌++◌}
use Prim.Native.String.{len, slice, fits}
use Prim.Native.String.append
use Prim.Native.String.len
use Prim.Native.String.slice
use mathlib.Core.Path.{◌≡◌, refl, sym, ap, ◌∙◌}
use mathlib.Core.Logic.{◌⊎◌, inl, inr}
use mathlib.Core.Bool.{Bool, true, false, not, ◌&&◌, ◌||◌}
use native.Mathlib.Omega.{arith}
use gigi_dc.Prelude.Tests.{leb, eqb, if◌then◌else◌}

-- `unicode.IsSpace`: the white space of Unicode.
unfoldable pub is_space : ℕ → Bool
is_space c =
    (leb 9 c && leb c 13)
    || eqb c 32
    || eqb c 0x85
    || eqb c 0xa0
    || eqb c 0x1680
    || (leb 0x2000 c && leb c 0x200a)
    || eqb c 0x2028
    || eqb c 0x2029
    || eqb c 0x202f
    || eqb c 0x205f
    || eqb c 0x3000

-- `s == ""`.
abbrev pub is_empty : String → Bool
is_empty [] = true
is_empty (c ∷ s) = false

trim_left : String → String
trim_left [] = []
trim_left (c ∷ s) = let rest = trim_left s in if is_space (code c) then rest else c ∷ s

trim_right : String → String
trim_right [] = []
trim_right (c ∷ s) =
    let rest = trim_right s in if is_space (code c) && is_empty rest then [] else c ∷ rest

-- `strings.TrimSpace`.
unfoldable pub trim : String → String
unfolding trim_left trim_right is_space
trim s = trim_right (trim_left s)

-- `strings.TrimSpace(s) == ""`.
abbrev pub is_blank : String → Bool
is_blank s = is_empty (trim s)

trim_right_idem : (s : String) → trim_right (trim_right s) ≡ trim_right s
unfolding trim_right
trim_right_idem [] = refl
trim_right_idem (c ∷ s) = ground (arith, trim_right_idem s)

-- A text that is empty or begins with a character that is no white space.
abbrev starts_solid : String → Bool
starts_solid [] = true
starts_solid (c ∷ s) = not (is_space (code c))

trim_left_solid : (s : String) → starts_solid (trim_left s) ≡ true
unfolding trim_left
trim_left_solid [] = refl
trim_left_solid (c ∷ s) = ground (arith, trim_left_solid s)

trim_right_solid : (s : String) → starts_solid s ≡ true → starts_solid (trim_right s) ≡ true
unfolding trim_right
trim_right_solid [] h = refl
trim_right_solid (c ∷ s) h = ground arith

trim_left_of_solid : (s : String) → starts_solid s ≡ true → trim_left s ≡ s
unfolding trim_left
trim_left_of_solid [] h = refl
trim_left_of_solid (c ∷ s) h = ground arith

-- `TrimSpace` is idempotent.
pub trim-trim : (s : String) → trim (trim s) ≡ trim s
unfolding trim
trim-trim s =
    let solid = trim_right_solid (trim_left s) (trim_left_solid s) in
    ap trim_right (trim_left_of_solid (trim_right (trim_left s)) solid)
    ∙ trim_right_idem (trim_left s)

pub is_empty-append : (s t : String) → is_empty t ≡ false → is_empty (s ++ t) ≡ false
is_empty-append [] t h = rw append.nil h
is_empty-append (c ∷ s) t h = rw append.cons refl

trim_right-append :
    (s t : String) → is_empty (trim_right t) ≡ false → trim_right (s ++ t) ≡ s ++ trim_right t
unfolding trim_right
trim_right-append [] t h = ap trim_right (append.nil t) ∙ sym (append.nil (trim_right t))
trim_right-append (c ∷ s) t h =
    rw (append.cons c s t, append.cons c s (trim_right t), trim_right-append s t h)
      (ground (arith, is_empty-append s (trim_right t) h))

starts_solid-append :
    (s t : String) → is_empty s ≡ false → starts_solid s ≡ true → starts_solid (s ++ t) ≡ true
starts_solid-append [] t h solid = absurd (ground (arith, h))
starts_solid-append (c ∷ s) t h solid = rw append.cons solid

starts_solid-trim : (s : String) → starts_solid (trim s) ≡ true
unfolding trim
starts_solid-trim s = trim_right_solid (trim_left s) (trim_left_solid s)

trim_right-trim : (s : String) → trim_right (trim s) ≡ trim s
unfolding trim
trim_right-trim s = trim_right_idem (trim_left s)

-- A text between two trimmed ones keeps them trimmed.
pub trim_framed :
    (s m t : String)
    → is_blank s ≡ false
    → is_blank t ≡ false
    → trim (trim s ++ (m ++ trim t)) ≡ trim s ++ (m ++ trim t)
unfolding trim
trim_framed s m t hs ht =
    ap trim_right (
      trim_left_of_solid (trim s ++ (m ++ trim t))
        (starts_solid-append (trim s) _ hs (starts_solid-trim s)))
    ∙ kept (trim s) (m ++ trim t) (kept m (trim t) (trim_right-trim t) ht)
        (is_empty-append m (trim t) ht)
  where
    -- Nothing is cut behind a text that ends solid.
    kept : (s t : String) → trim_right t ≡ t → is_empty t ≡ false → trim_right (s ++ t) ≡ s ++ t
    kept s t e h = trim_right-append s t (rw e h) ∙ ap (λ x. s ++ x) e

-- Two trimmed texts that are not empty make one.
pub trim_joined :
    (s t : String)
    → trim s ≡ s
    → trim t ≡ t
    → is_empty s ≡ false
    → is_empty t ≡ false
    → trim (s ++ t) ≡ s ++ t
trim_joined s t es et hs ht =
    let framed = trim_framed s "" t (rw es hs) (rw et ht) in rw (es, et, append.nil t) at framed

pub trim_spaced : (s : String) → trim (" " ++ trim s) ≡ trim s
unfolding trim is_space
trim_spaced s =
    let bare : trim_left (" " ++ trim s) ≡ trim s =
      rw append.cons (rw append.nil (trim_left_of_solid (trim s) (starts_solid-trim s))) in
    ap trim_right bare ∙ trim_right-trim s

-- `utf8.RuneCountInString`.
abbrev pub rune_count : String → ℕ
rune_count [] = 0
rune_count (c ∷ s) = suc (rune_count s)

-- `string([]rune(s)[:n])`.
abbrev pub take_runes : ℕ → String → String
take_runes zero s = []
take_runes (suc n) [] = []
take_runes (suc n) (c ∷ s) = c ∷ take_runes n s

trim_left-le : (s : String) → rune_count (trim_left s) ≤ rune_count s
unfolding trim_left
trim_left-le [] = omega arith
trim_left-le (c ∷ s) = ground (arith, trim_left-le s)

trim_right-le : (s : String) → rune_count (trim_right s) ≤ rune_count s
unfolding trim_right
trim_right-le [] = omega arith
trim_right-le (c ∷ s) = ground (arith, trim_right-le s)

pub rune_count-trim : (s : String) → rune_count (trim s) ≤ rune_count s
unfolding trim
rune_count-trim s = omega (arith, trim_right-le (trim_left s), trim_left-le s)

pub rune_count-take_runes : (n : ℕ) (s : String) → rune_count (take_runes n s) ≤ n
rune_count-take_runes zero s = omega arith
rune_count-take_runes (suc n) [] = omega arith
rune_count-take_runes (suc n) (c ∷ s) = omega (arith, rune_count-take_runes n s)

pub rune_count-append : (s t : String) → rune_count (s ++ t) ≡ rune_count s + rune_count t
rune_count-append [] t = rw append.nil (omega arith)
rune_count-append (c ∷ s) t = rw append.cons (omega (arith, rune_count-append s t))

fits_at :
    (a b : ℕ) (c : Char) (s : String)
    → (fits (compare a b) c s ≡ []) ⊎ ((leb a b ≡ true) × (fits (compare a b) c s ≡ c ∷ s))
fits_at a b c s = at (compare a b)
  where
    at :
        (o : Ordering)
        → (fits o c s ≡ [])
          ⊎ ((elim o [ Ordering.gt ↦ false | _ ↦ true ] ≡ true) × (fits o c s ≡ c ∷ s))
    at Ordering.lt = inr (refl, refl)
    at Ordering.eq = inr (refl, refl)
    at Ordering.gt = inl refl

-- `s[:n]` has at most n bytes.
pub len-slice-le : (s : String) (k : ℕ) → len (slice s 0 k) ≤ k
len-slice-le [] k = rw (slice.nil 0 k, len.nil) (omega arith)
len-slice-le (c ∷ s) k =
    rw (slice.cons-zero c s k) (elim (fits_at (len_utf8 c) k c (slice s 0 (k - len_utf8 c))) [
      | inl e ↦ rw e (rw len.nil (omega arith))
      | inr (l, e) ↦ rw e (rw len.cons (ground (arith, l, len-slice-le s (k - len_utf8 c))))
    ])
