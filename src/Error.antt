-- ===== src/Error.antt =====
-- error.rs, and the errors of the drivers (drivers/mod.rs).
use data_looker.Prelude.{◌≡◌, ◌⊎◌, inl, inr, refl, Option, none, some, ◌++◌}
use data_looker.Text.{Text, codes}

pub data AppError : Type 0 where
  validation not_found database secret conflict in_transaction shell file unsupported :
      Text → AppError
  cancelled timeout : AppError

-- `to_string`
unfoldable pub display : AppError → Text
display (validation t) = codes "Invalid input: " ++ t
display (not_found t) = codes "Not found: " ++ t
display (database t) = codes "Database error: " ++ t
display (secret t) = codes "Keychain error: " ++ t
display (conflict t) = codes "Conflict: " ++ t
display (in_transaction t) = codes "Transaction open: " ++ t
display (shell t) = codes "Shell error: " ++ t
display (file t) = codes "File error: " ++ t
display (unsupported t) = t
display cancelled = codes "Cancelled"
display timeout = codes "Timed out"

pub data Result {ℓ κ} (A : Type ℓ) (E : Type κ) : Type (ℓ ⊔ κ) where
  ok : A → Result A E
  err : E → Result A E

infixl 5 ◌>>=◌ ◌>>◌
abbrev pub ◌>>=◌ {ℓ κ ι} :
    {A : Type ℓ} {B : Type κ} {E : Type ι} → Result A E → (A → Result B E) → Result B E
ok a >>= f = f a
err e >>= f = err e

abbrev pub ◌>>◌ {κ ι} : {B : Type κ} {E : Type ι} → Result (Unit {0}) E → Result B E → Result B E
m >> k = m >>= λ _. k

abbrev pub ok_or {ℓ κ} : {A : Type ℓ} {E : Type κ} → Option A → E → Result A E
ok_or none e = err e
ok_or (some a) e = ok a

pub Result-cases {ℓ κ} :
    {A : Type ℓ} {E : Type κ} (r : Result A E) → ((a : A) × (r ≡ ok a)) ⊎ ((e : E) × (r ≡ err e))
Result-cases (ok a) = inl (a, refl)
Result-cases (err e) = inr (e, refl)
