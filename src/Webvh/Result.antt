-- ===== src/Webvh/Result.antt =====
-- internal/webvh/log.go: results, which are an error or a value, and the order of early returns.
use vtafarm_api.Base.{ℕ, String, Bool, true, false, Option, none, some, ◌⊎◌, inl, inr, ◌≡◌, refl}

-- An error, wrapped with the number of a line or of a version.
pub data Refusal : Type 0 where
  refused : String → Refusal
  at_line at_version : ℕ → Refusal → Refusal

abbrev pub Result : Type 0 → Type 0
Result A = Refusal ⊎ A

infixl 5 ◌>>=◌ ◌>>◌
abbrev pub ◌>>=◌ : {A B : Type 0} → Result A → (A → Result B) → Result B
◌>>=◌ m f = elim m [ inl e ↦ inl e | inr a ↦ f a ]

abbrev pub ◌>>◌ : {A B : Type 0} → Result A → Result B → Result B
◌>>◌ m k = elim m [ inl e ↦ inl e | inr a ↦ k ]

abbrev pub return : {A : Type 0} → A → Result A
return a = inr a

-- An early return with an error where the test fails.
abbrev pub guard : Bool → String → Result (Unit {0})
guard true e = inr tt
guard false e = inl (refused e)

abbrev pub or_refuse : {A : Type 0} → Option A → String → Result A
or_refuse none e = inl (refused e)
or_refuse (some a) e = inr a

abbrev pub wrap : {A : Type 0} → (Refusal → Refusal) → Result A → Result A
wrap f (inl e) = inl (f e)
wrap f (inr a) = inr a

-- A chain succeeds where each part does.
module _ {A B : Type 0} where
  pub bind-inr :
      (m : Result A) (f : A → Result B) (b : B)
      → (m >>= f) ≡ inr b
      → (a : A) × (m ≡ inr a) × (f a ≡ inr b)
  bind-inr (inl e) f b h = cc h
  bind-inr (inr a) f b h = (a, refl, h)

  pub then-inr :
      (m : Result A) (k : Result B) (b : B)
      → (m >> k) ≡ inr b
      → ((a : A) × (m ≡ inr a)) × (k ≡ inr b)
  then-inr (inl e) k b h = cc h
  then-inr (inr a) k b h = ((a, refl), h)

pub or_refuse-inr :
    {A : Type 0} (o : Option A) (e : String) (a : A) → or_refuse o e ≡ inr a → o ≡ some a
or_refuse-inr none e a h = cc h
or_refuse-inr (some x) e a h = cc h

pub guard-inr : (b : Bool) (e : String) (u : Unit) → guard b e ≡ inr u → b ≡ true
guard-inr true e u h = refl
guard-inr false e u h = cc h

pub wrap-inr :
    {A : Type 0} (f : Refusal → Refusal) (m : Result A) (a : A) → wrap f m ≡ inr a → m ≡ inr a
wrap-inr f (inl e) a h = cc h
wrap-inr f (inr x) a h = h

pub Result-cases :
    {A : Type 0} (m : Result A) → ((e : Refusal) × (m ≡ inl e)) ⊎ ((a : A) × (m ≡ inr a))
Result-cases (inl e) = inl (e, refl)
Result-cases (inr a) = inr (a, refl)
