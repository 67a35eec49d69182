-- ===== src/Agent/Effects/Keeps.antt =====
-- Invariants of the history, one rule for each way to build an action.
use gigi_dc.Prelude.{◌≡◌, refl, Bool, true, false, ◌∷◌, if◌then◌else◌}
use gigi_dc.Agent.Effects.{Effect, History, Act, give, ask, perform, ◌>>=◌, is_quiet}

-- The action leads from histories that satisfy `P` to histories that satisfy `P`.
pub record Keeps {A : Type 0} (P : History → Type 0) (m : Act A) : Type 0 where
  pub at : (h : History) → P h → P (m h).1

-- Quiet effects do not disturb `P`.
abbrev pub IsStable : (History → Type 0) → Type 0
IsStable P = (e : Effect) (h : History) → is_quiet e ≡ true → P h → P (e ∷ h)

module _ {A : Type 0} {P : History → Type 0} where
  pub give-Keeps : (a : A) → Keeps P (give a)
  unfolding give
  give-Keeps a = record { at = λ h p. p }

  pub ask-Keeps :
      IsStable P → (e : Effect) (answer : History → A) → is_quiet e ≡ true → Keeps P (ask e answer)
  unfolding ask
  ask-Keeps stable e answer q = record { at = λ h p. stable e h q p }

  pub if-Keeps : (b : Bool) (m n : Act A) → Keeps P m → Keeps P n → Keeps P (if b then m else n)
  if-Keeps true m n km kn = km
  if-Keeps false m n km kn = kn

module _ {P : History → Type 0} where
  pub perform-Keeps : IsStable P → (e : Effect) → is_quiet e ≡ true → Keeps P (perform e)
  unfolding perform
  perform-Keeps stable e q = record { at = λ h p. stable e h q p }

module _ {A B : Type 0} {P : History → Type 0} where
  pub bind-Keeps :
      (m : Act A) (f : A → Act B) → Keeps P m → ((a : A) → Keeps P (f a)) → Keeps P (m >>= f)
  unfolding ◌>>=◌
  bind-Keeps m f km kf = record { at = λ h p. (kf (m h).0).at (m h).1 (km.at h p) }

-- The action leads from histories that satisfy `P` to answers and histories that satisfy `Q`.
pub record Leads {A : Type 0} (P : History → Type 0) (Q : A → History → Type 0) (m : Act A)
    : Type 0 where
  pub at : (h : History) → P h → Q (m h).0 (m h).1

module _ {A : Type 0} {P : History → Type 0} {Q : A → History → Type 0} where
  pub give-Leads : (a : A) → ((h : History) → P h → Q a h) → Leads P Q (give a)
  unfolding give
  give-Leads a k = record { at = k }

  pub ask-Leads :
      (e : Effect) (answer : History → A)
      → ((h : History) → P h → Q (answer h) (e ∷ h))
      → Leads P Q (ask e answer)
  unfolding ask
  ask-Leads e answer k = record { at = k }

  pub if-Leads :
      (b : Bool) (m n : Act A) → Leads P Q m → Leads P Q n → Leads P Q (if b then m else n)
  if-Leads true m n km kn = km
  if-Leads false m n km kn = kn

  -- The branches may use what their test says.
  pub if-Leads_cases :
      (b : Bool) (m n : Act A)
      → (b ≡ true → Leads P Q m)
      → (b ≡ false → Leads P Q n)
      → Leads P Q (if b then m else n)
  if-Leads_cases true m n km kn = km refl
  if-Leads_cases false m n km kn = kn refl

module _ {A B : Type 0} {P : History → Type 0} {Q : B → History → Type 0} where
  pub bind-Leads :
      (m : Act A) (f : A → Act B) → Keeps P m → ((a : A) → Leads P Q (f a)) → Leads P Q (m >>= f)
  unfolding ◌>>=◌
  bind-Leads m f km kf = record { at = λ h p. (kf (m h).0).at (m h).1 (km.at h p) }

  pub bind-Leads_through :
      {R : A → History → Type 0} (m : Act A) (f : A → Act B)
      → Leads P R m
      → ((a : A) → Leads (R a) Q (f a))
      → Leads P Q (m >>= f)
  unfolding ◌>>=◌
  bind-Leads_through m f km kf = record { at = λ h p. (kf (m h).0).at (m h).1 (km.at h p) }
