-- ===== src/Prelude/Errors.antt =====
-- Go's `error` values and fallible results.
use Prim.Native.String.{String}
use mathlib.Core.Path.{◌≡◌, refl}
use mathlib.Core.Bool.{Bool, true, false}
use mathlib.Core.List.{List, [], ◌∷◌}

-- `failure` is `fmt.Errorf` of a text, `wrap` is `fmt.Errorf("…: %w", err)`; the others are the
-- sentinels that the code tells apart by `errors.Is` and `==`.
pub data Error : Type 0 where
  failure : String → Error
  wrap : String → Error → Error
  no_rows : Error
  context_permission_denied : Error

pub data Result {ℓ} (A : Type ℓ) : Type ℓ where
  ok : A → Result A
  err : Error → Result A

infixl 5 ◌>>=◌ ◌>>◌
abbrev pub ◌>>=◌ {ℓ κ} : {A : Type ℓ} {B : Type κ} → Result A → (A → Result B) → Result B
ok a >>= f = f a
err e >>= f = err e

abbrev pub ◌>>◌ {ℓ κ} : {A : Type ℓ} {B : Type κ} → Result A → Result B → Result B
m >> k = m >>= λ _. k

-- `if bad { return fmt.Errorf(text) }`.
abbrev pub refuse_if : Bool → String → Result (Unit {0})
refuse_if true text = err (failure text)
refuse_if false text = ok tt

-- `fmt.Errorf("label: %w", err)` on the error of a result.
abbrev pub labelled_error {ℓ} : {A : Type ℓ} → String → Result A → Result A
labelled_error label (ok a) = ok a
labelled_error label (err e) = err (wrap label e)

-- `for _, x := range xs { if err := f(x); err != nil { return err } }`.
abbrev pub check_each {ℓ} : {A : Type ℓ} → (A → Result (Unit {0})) → List A → Result (Unit {0})
check_each f [] = ok tt
check_each f (x ∷ xs) = f x >> check_each f xs

abbrev pub is_ok {ℓ} : {A : Type ℓ} → Result A → Bool
is_ok (ok a) = true
is_ok (err e) = false

-- What a chain that succeeds says of its links.
module _ {A B : Type 0} where
  pub bind_ok :
      (m : Result A) (k : A → Result B) (b : B)
      → (m >>= k) ≡ ok b
      → (a : A) × ((m ≡ ok a) × (k a ≡ ok b))
  bind_ok (ok a) k b h = (a, (refl, h))
  bind_ok (err e) k b h = cc

pub refuse_ok :
    {B : Type 0} (refused : Bool) (text : String) (k : Result B) (b : B)
    → (refuse_if refused text >> k) ≡ ok b
    → (refused ≡ false) × (k ≡ ok b)
refuse_ok true text k b h = cc
refuse_ok false text k b h = (refl, h)

pub labelled_ok :
    {A : Type 0} (label : String) (m : Result A) (a : A) → labelled_error label m ≡ ok a → m ≡ ok a
labelled_ok label (ok x) a h = h
labelled_ok label (err e) a h = cc

pub ok_eq : {A : Type 0} (a b : A) → ok a ≡ ok b → a ≡ b
ok_eq a b h = cc
