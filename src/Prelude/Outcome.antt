-- ===== src/Prelude/Outcome.antt =====
-- What a run of kernel code comes to: a value, a panic, the dereference of a null pointer, or a loop
-- that has used up the rounds that the model gives it.
use reaveros.Prelude.{◌≡◌, refl, Option, none, some, Never, Returns}

pub data Outcome {ℓ} (A : Type ℓ) : Type ℓ where
  done : A → Outcome A
  panic fault spin : Outcome A

infixl 5 ◌>>=◌
abbrev pub ◌>>=◌ {ℓ κ} : {A : Type ℓ} {B : Type κ} → Outcome A → (A → Outcome B) → Outcome B
done a >>= f = f a
panic >>= f = panic
fault >>= f = fault
spin >>= f = spin

-- An operation of a container that fails by following a null pointer.
abbrev pub deref {ℓ} : {A : Type ℓ} → Option A → Outcome A
deref none = fault
deref (some a) = done a

-- The run comes to a value, and the value satisfies the predicate.
abbrev pub Yields {ℓ κ} : {A : Type ℓ} → (A → Type κ) → Outcome A → Type κ
Yields P (done a) = P a
Yields P panic = Never
Yields P fault = Never
Yields P spin = Never

pub Yields-bind {ℓ κ μ ν} :
    {A : Type ℓ} {B : Type κ} (P : A → Type μ) (Q : B → Type ν) (m : Outcome A) (f : A → Outcome B)
    → Yields P m
    → ((a : A) → P a → Yields Q (f a))
    → Yields Q (m >>= f)
Yields-bind P Q (done a) f h k = k a h
Yields-bind P Q panic f h k = elim h [ ]
Yields-bind P Q fault f h k = elim h [ ]
Yields-bind P Q spin f h k = elim h [ ]

pub Yields-imp {ℓ κ μ} :
    {A : Type ℓ} (P : A → Type κ) (Q : A → Type μ) (m : Outcome A)
    → ((a : A) → P a → Q a)
    → Yields P m
    → Yields Q m
Yields-imp P Q (done a) f h = f a h
Yields-imp P Q panic f h = elim h [ ]
Yields-imp P Q fault f h = elim h [ ]
Yields-imp P Q spin f h = elim h [ ]

pub Yields-deref {ℓ κ} :
    {A : Type ℓ} (P : A → Type κ) (o : Option A) → Returns P o → Yields P (deref o)
Yields-deref P none h = h
Yields-deref P (some a) h = h

pub bind-ext {ℓ κ} :
    {A : Type ℓ} {B : Type κ} (m : Outcome A) (f g : A → Outcome B)
    → ((a : A) → f a ≡ g a)
    → (m >>= f) ≡ (m >>= g)
bind-ext (done a) f g h = h a
bind-ext panic f g h = refl
bind-ext fault f g h = refl
bind-ext spin f g h = refl

pub bind_assoc {ℓ κ μ} :
    {A : Type ℓ} {B : Type κ} {C : Type μ} (m : Outcome A) (f : A → Outcome B) (g : B → Outcome C)
    → (m >>= f >>= g) ≡ (m >>= λ a. f a >>= g)
bind_assoc (done a) f g = refl
bind_assoc panic f g = refl
bind_assoc fault f g = refl
bind_assoc spin f g = refl

-- If the run comes to a value, the value satisfies the predicate.
abbrev pub Whenever {ℓ κ} : {A : Type ℓ} → (A → Type κ) → Outcome A → Type κ
Whenever P (done a) = P a
Whenever P panic = Unit
Whenever P fault = Unit
Whenever P spin = Unit

pub Whenever-any {ℓ κ} :
    {A : Type ℓ} (P : A → Type κ) (m : Outcome A) → ((a : A) → P a) → Whenever P m
Whenever-any P (done a) h = h a
Whenever-any P panic h = tt
Whenever-any P fault h = tt
Whenever-any P spin h = tt

pub Whenever-bind {ℓ κ μ ν} :
    {A : Type ℓ} {B : Type κ} (P : A → Type μ) (Q : B → Type ν) (m : Outcome A) (f : A → Outcome B)
    → Whenever P m
    → ((a : A) → P a → Whenever Q (f a))
    → Whenever Q (m >>= f)
Whenever-bind P Q (done a) f h k = k a h
Whenever-bind P Q panic f h k = tt
Whenever-bind P Q fault f h k = tt
Whenever-bind P Q spin f h k = tt
