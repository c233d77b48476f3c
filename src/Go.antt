-- ===== src/Go.antt =====
-- What the Go language itself contributes to the models: a call that may panic, the errors that
-- the program builds, and its fixed-width integers.
pub mod Text
use azure_event_hubs_go.Base.{
  ◌≡◌, refl, ◌⊎◌, inl, inr, ℕ, ◌+◌, ◌%◌, ◌^◌, String, Option, none, some,
}

-- The result of a call: it returns a value, or it panics.
pub data Outcome {ℓ} (A : Type ℓ) : Type ℓ where
  returned : A → Outcome A
  panicked : Outcome A

-- A method of an object of type S. What was written before a panic stays written.
abbrev pub Method {ℓ} : Type ℓ → Type ℓ → Type ℓ
Method S A = S → Outcome A × S

-- The value of a Go error: a text that the program wrote, or an error of code that it calls.
pub data Error : Type 0 where
  errors_new : String → Error
  external : String → Error

-- A pair (value, error) of which exactly one is set.
pub data Result {ℓ} (A : Type ℓ) : Type ℓ where
  ok : A → Result A
  err : Error → Result A

pub Result-cases {ℓ} :
    {A : Type ℓ} (r : Result A) → ((a : A) × (r ≡ ok a)) ⊎ ((e : Error) × (r ≡ err e))
Result-cases (ok a) = inl (a, refl)
Result-cases (err e) = inr (e, refl)

pub Outcome-cases {ℓ} : {A : Type ℓ} (o : Outcome A) → ((a : A) × (o ≡ returned a)) ⊎ (o ≡ panicked)
Outcome-cases (returned a) = inl (a, refl)
Outcome-cases panicked = inr refl

-- Reading through a pointer panics at nil.
abbrev pub or_panic {ℓ} : {S A : Type ℓ} → Option A → S → Outcome A × S
or_panic none s = (panicked, s)
or_panic (some a) s = (returned a, s)

-- time.Second, a time.Duration in nanoseconds.
abbrev pub second : ℕ
second = 1000000000

-- atomic.AddInt64(&n, 1), on the two's complement pattern of n.
unfoldable pub add_int64 : ℕ → ℕ → ℕ
add_int64 n k = (n + k) % 2 ^ 64

-- A call of an outside service: it acts on the world W, and returns a value or an error.
abbrev pub Call {ℓ} : Type ℓ → Type ℓ → Type ℓ
Call W A = W → Result A × W

-- `if err != nil { return err }`
abbrev pub then_call {ℓ} : {W A B : Type ℓ} → Result A × W → (A → Call W B) → Result B × W
then_call (ok a, w) f = f a w
then_call (err e, w) f = (err e, w)

infixl 5 ◌>>=◌ ◌>>◌
abbrev pub ◌>>=◌ {ℓ} : {W A B : Type ℓ} → Call W A → (A → Call W B) → Call W B
◌>>=◌ m f w = then_call (m w) f

abbrev pub ◌>>◌ {ℓ} : {W A B : Type ℓ} → Call W A → Call W B → Call W B
m >> n = m >>= λ _. n

-- A value or an error that needs no service.
abbrev pub lift {ℓ} : {W A : Type ℓ} → Result A → Call W A
lift r w = (r, w)

pub Called-cases {ℓ} :
    {W A : Type ℓ} (x : Result A × W)
    → ((a : A) × (w : W) × (x ≡ (ok a, w))) ⊎ ((e : Error) × (w : W) × (x ≡ (err e, w)))
Called-cases (ok a, w) = inl (a, w, refl)
Called-cases (err e, w) = inr (e, w, refl)
