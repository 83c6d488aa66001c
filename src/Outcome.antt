-- ===== src/Outcome.antt =====
-- What a C call that returns `bool` did, as a value, and the chaining of such calls by early return.

use smartcity.Prelude.{◌≡◌, refl, subst, ◌⊎◌, inl, inr, Bool, true, false, if◌then◌else◌}

-- `rejected` is `return false`. The last two are no C values: `fault` is an access outside the
-- object that a pointer points into, and `stuck` a loop that used up the rounds given to it.
pub data Outcome {ℓ} (A : Type ℓ) : Type ℓ where
  ok : A → Outcome A
  rejected fault stuck : Outcome A

infixl 5 ◌>>=◌ ◌>>◌
abbrev pub ◌>>=◌ {ℓ κ} : {A : Type ℓ} {B : Type κ} → Outcome A → (A → Outcome B) → Outcome B
ok a >>= f = f a
rejected >>= f = rejected
fault >>= f = fault
stuck >>= f = stuck

abbrev pub ◌>>◌ {ℓ κ} : {A : Type ℓ} {B : Type κ} → Outcome A → Outcome B → Outcome B
m >> k = m >>= λ _. k

-- To split on what a computed call did, and keep the equation.
pub Outcome-cases {ℓ} :
    {A : Type ℓ} (o : Outcome A)
    → ((a : A) × (o ≡ ok a)) ⊎ ((o ≡ rejected) ⊎ ((o ≡ fault) ⊎ (o ≡ stuck)))
Outcome-cases (ok a) = inl (a, refl)
Outcome-cases rejected = inr (inl refl)
Outcome-cases fault = inr (inr (inl refl))
Outcome-cases stuck = inr (inr (inr refl))

-- `P` of what was returned, if anything was.
unfoldable pub Yields {ℓ κ} : {A : Type ℓ} → (A → Type κ) → Outcome A → Type κ
Yields P (ok a) = P a
Yields P rejected = Unit
Yields P fault = Unit
Yields P stuck = Unit

pub Yields-ok {ℓ κ} :
    {A : Type ℓ} (P : A → Type κ) {o : Outcome A} {a : A} → Yields P o → o ≡ ok a → P a
unfolding Yields
Yields-ok P h e = subst (Yields P) e h

pub Yields-of_ok {ℓ κ} : {A : Type ℓ} (P : A → Type κ) (a : A) → P a → Yields P (ok a)
unfolding Yields
Yields-of_ok P a h = h

pub Yields-bind {ℓ κ μ} :
    {A : Type ℓ} {B : Type κ} (P : A → Type μ) (Q : B → Type μ) (o : Outcome A) (f : A → Outcome B)
    → Yields P o
    → ((a : A) → P a → Yields Q (f a))
    → Yields Q (o >>= f)
unfolding Yields
Yields-bind P Q (ok a) f h k = k a h
Yields-bind P Q rejected f h k = tt
Yields-bind P Q fault f h k = tt
Yields-bind P Q stuck f h k = tt

pub Yields-if {ℓ κ} :
    {A : Type ℓ} (P : A → Type κ) (b : Bool) (x y : Outcome A)
    → Yields P x
    → Yields P y
    → Yields P (if b then x else y)
Yields-if P true x y h k = h
Yields-if P false x y h k = k

pub Yields-intro {ℓ κ} :
    {A : Type ℓ} (P : A → Type κ) (o : Outcome A) → ((a : A) → o ≡ ok a → P a) → Yields P o
unfolding Yields
Yields-intro P (ok a) h = h a refl
Yields-intro P rejected h = tt
Yields-intro P fault h = tt
Yields-intro P stuck h = tt

pub Yields-map {ℓ κ} :
    {A : Type ℓ} (P Q : A → Type κ) (o : Outcome A)
    → Yields P o
    → ((a : A) → P a → Q a)
    → Yields Q o
unfolding Yields
Yields-map P Q (ok a) h k = k a h
Yields-map P Q rejected h k = tt
Yields-map P Q fault h k = tt
Yields-map P Q stuck h k = tt

pub Yields-any {ℓ κ} : {A : Type ℓ} (P : A → Type κ) (o : Outcome A) → ((a : A) → P a) → Yields P o
Yields-any P o h = Yields-intro P o (λ a _. h a)

-- Two chains of calls that do the same step by step.
pub bind-same {ℓ κ} :
    {A : Type ℓ} {B : Type κ} {o o' : Outcome A} {f f' : A → Outcome B}
    → o ≡ o'
    → ((a : A) → f a ≡ f' a)
    → o >>= f ≡ o' >>= f'
bind-same e h = λ i. e i >>= λ a. h a i
