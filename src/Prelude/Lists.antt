-- ===== src/Prelude/Lists.antt =====
-- Lists measured by native numbers, and the Boolean and logical quantifiers over lists.
use Prim.Native.Nat.{ℕ, zero, suc, ◌+◌, ◌≤◌}
use mathlib.Core.Path.{◌≡◌, refl, ap}
use mathlib.Core.Bool.{Bool, true, false, ◌&&◌, ◌||◌}
use mathlib.Core.List.{List, [], ◌∷◌}
use mathlib.Core.Option.{Option, none, some}
use native.Mathlib.Omega.{arith}
use gigi_dc.Prelude.Tests.{if◌then◌else◌}

module _ {ℓ} {A : Type ℓ} where
  abbrev pub length : List A → ℕ
  length [] = 0
  length (x ∷ xs) = suc (length xs)

  abbrev pub is_nil : List A → Bool
  is_nil [] = true
  is_nil (x ∷ xs) = false

  -- Go's `append(xs, ys...)`; `++` is kept for texts.
  abbrev pub append : List A → List A → List A
  append [] ys = ys
  append (x ∷ xs) ys = x ∷ append xs ys

  -- Go's `append(xs, y)`.
  abbrev pub push : List A → A → List A
  push [] y = y ∷ []
  push (x ∷ xs) y = x ∷ push xs y

  abbrev pub or_else : Option A → A → A
  or_else none d = d
  or_else (some x) d = x

  abbrev pub is_some : Option A → Bool
  is_some none = false
  is_some (some x) = true

  abbrev pub take : ℕ → List A → List A
  take zero xs = []
  take (suc n) [] = []
  take (suc n) (x ∷ xs) = x ∷ take n xs

  abbrev pub any : (A → Bool) → List A → Bool
  any p [] = false
  any p (x ∷ xs) = p x || any p xs

  abbrev pub all : (A → Bool) → List A → Bool
  all p [] = true
  all p (x ∷ xs) = p x && all p xs

  -- The elements that pass a test, in order.
  abbrev pub keep : (A → Bool) → List A → List A
  keep p [] = []
  keep p (x ∷ xs) = let rest = keep p xs in if p x then x ∷ rest else rest

  pub length-push : (xs : List A) (y : A) → length (push xs y) ≡ suc (length xs)
  length-push [] y = refl
  length-push (x ∷ xs) y = ap suc (length-push xs y)

  pub length-append : (xs ys : List A) → length (append xs ys) ≡ length xs + length ys
  length-append [] ys = omega arith
  length-append (x ∷ xs) ys = omega (arith, length-append xs ys)

  pub length-take-le : (n : ℕ) (xs : List A) → length (take n xs) ≤ n
  length-take-le zero xs = omega arith
  length-take-le (suc n) [] = omega arith
  length-take-le (suc n) (x ∷ xs) = omega (arith, length-take-le n xs)

  pub any-append : (p : A → Bool) (xs ys : List A) → any p (append xs ys) ≡ (any p xs || any p ys)
  any-append p [] ys = refl
  any-append p (x ∷ xs) ys = ground (arith, any-append p xs ys)

  pub all-append : (p : A → Bool) (xs ys : List A) → all p (append xs ys) ≡ (all p xs && all p ys)
  all-append p [] ys = refl
  all-append p (x ∷ xs) ys = ground (arith, all-append p xs ys)

module _ {ℓ κ} {A : Type ℓ} where
  -- A predicate of every element.
  abbrev pub All : (A → Type κ) → List A → Type κ
  All P [] = Unit
  All P (x ∷ xs) = P x × All P xs

  pub All-append : (P : A → Type κ) (xs ys : List A) → All P xs → All P ys → All P (append xs ys)
  All-append P [] ys hx hy = hy
  All-append P (x ∷ xs) ys hx hy = (hx.0, All-append P xs ys hx.1 hy)

  pub All-map : (P Q : A → Type κ) → ((x : A) → P x → Q x) → (xs : List A) → All P xs → All Q xs
  All-map P Q f [] h = tt
  All-map P Q f (x ∷ xs) h = (f x h.0, All-map P Q f xs h.1)

  pub All-pair : (P Q : A → Type κ) (xs : List A) → All P xs → All Q xs → All (λ x. P x × Q x) xs
  All-pair P Q [] p q = tt
  All-pair P Q (x ∷ xs) p q = ((p.0, q.0), All-pair P Q xs p.1 q.1)

  pub All-keep : (P : A → Type κ) (p : A → Bool) (xs : List A) → All P xs → All P (keep p xs)
  All-keep P p [] h = tt
  All-keep P p (x ∷ xs) h = kept (p x) (All-keep P p xs h.1)
    where
      kept : (b : Bool) → All P (keep p xs) → All P (if b then x ∷ keep p xs else keep p xs)
      kept true rest = (h.0, rest)
      kept false rest = rest

  pub All-push : (P : A → Type κ) (xs : List A) (y : A) → All P xs → P y → All P (push xs y)
  All-push P [] y h p = (p, tt)
  All-push P (x ∷ xs) y h p = (h.0, All-push P xs y h.1 p)

module _ {ℓ} {A : Type ℓ} where
  pub any-push : (p : A → Bool) (xs : List A) (y : A) → any p (push xs y) ≡ (any p xs || p y)
  any-push p [] y = ground arith
  any-push p (x ∷ xs) y = ground (arith, any-push p xs y)

  pub any_none : (p : A → Bool) (xs : List A) → any p xs ≡ false → All (λ x. p x ≡ false) xs
  any_none p [] h = tt
  any_none p (x ∷ xs) h = (ground (arith, h), any_none p xs (ground (arith, h)))

  pub length-keep-push :
      (p : A → Bool) (xs : List A) (y : A)
      → length (keep p (push xs y)) ≡ (if p y then suc (length (keep p xs)) else length (keep p xs))
  length-keep-push p [] y = ground arith
  length-keep-push p (x ∷ xs) y = ground (arith, length-keep-push p xs y)
