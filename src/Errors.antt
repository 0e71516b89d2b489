-- ===== src/Errors.antt =====
-- Python exceptions as values: the class and the message (backend/app/core/exceptions.py). What was
-- written before a raise stays written unless the code rolls back, so state is passed beside them.
use filum_reforge.Base.{true, false, if◌then◌else◌, String, Bool, ◌≡◌, refl}

pub record Failure : Type 0 where
  pub type_name : String
  pub message : String

pub data Result {ℓ} (A : Type ℓ) : Type ℓ where
  ok : A → Result A
  raise : Failure → Result A

abbrev pub conflict : String → Failure
conflict message = record { type_name = "ConflictError"; message = message }

abbrev pub not_found : String → Failure
not_found message = record { type_name = "NotFoundError"; message = message }

abbrev pub forbidden : String → Failure
forbidden message = record { type_name = "AuthorizationError"; message = message }

abbrev pub invalid : String → Failure
invalid message = record { type_name = "AppValidationError"; message = message }

infixl 5 ◌>>=◌ ◌>>◌
abbrev pub ◌>>=◌ {ℓ κ} : {A : Type ℓ} {B : Type κ} → Result A → (A → Result B) → Result B
ok a >>= next = next a
raise e >>= next = raise e

abbrev pub ◌>>◌ {ℓ} : {B : Type ℓ} → Result (Unit {0}) → Result B → Result B
first >> then_do = first >>= λ _. then_do

-- `if b: raise e`
abbrev pub raise_if : Bool → Failure → Result (Unit {0})
raise_if Bool.true e = raise e
raise_if Bool.false e = ok tt

-- Whatever is returned has the property.
unfoldable pub Yields {ℓ} : {A : Type ℓ} → (A → Type 0) → Result A → Type 0
Yields P (ok a) = P a
Yields P (raise e) = Unit

pub Yields-bind {ℓ κ} :
    {A : Type ℓ} {B : Type κ} (P : A → Type 0) (Q : B → Type 0) (m : Result A) (next : A → Result B)
    → Yields P m
    → ((a : A) → P a → Yields Q (next a))
    → Yields Q (m >>= next)
unfolding Yields
Yields-bind P Q (ok a) next h then_h = then_h a h
Yields-bind P Q (raise e) next h then_h = tt

-- The same with nothing known of the first result.
pub Yields-next {ℓ κ} :
    {A : Type ℓ} {B : Type κ} (Q : B → Type 0) (m : Result A) (next : A → Result B)
    → ((a : A) → Yields Q (next a))
    → Yields Q (m >>= next)
unfolding Yields
Yields-next Q (ok a) next h = h a
Yields-next Q (raise e) next h = tt

pub weaken_result {ℓ} :
    {A : Type ℓ} (P Q : A → Type 0) (m : Result A) → ((a : A) → P a → Q a) → Yields P m → Yields Q m
unfolding Yields
weaken_result P Q (ok a) implies h = implies a h
weaken_result P Q (raise e) implies h = tt

pub Yields-if {ℓ} :
    {A : Type ℓ} (P : A → Type 0) (b : Bool) (x y : Result A)
    → Yields P x
    → Yields P y
    → Yields P (if b then x else y)
unfolding Yields
Yields-if P true x y h k = h
Yields-if P false x y h k = k

-- What follows a guard may use that it did not raise.
pub Yields-guard {ℓ} :
    {B : Type ℓ} (Q : B → Type 0) (b : Bool) (e : Failure) (next : Unit {0} → Result B)
    → (b ≡ false → Yields Q (next tt))
    → Yields Q (raise_if b e >>= next)
unfolding Yields
Yields-guard Q true e next h = tt
Yields-guard Q false e next h = h refl

pub Yields-any {ℓ} : {A : Type ℓ} (P : A → Type 0) (m : Result A) → ((a : A) → P a) → Yields P m
unfolding Yields
Yields-any P (ok a) h = h a
Yields-any P (raise e) h = tt
