-- ===== src/Result.antt =====
-- What a handler of a master's task returns: its result, or the exception that ends the task.
use piwheels.Prelude.{◌≡◌, refl, Option, none, some}

-- The exceptions that no handler catches, and that end the task.
pub data Fault : Type 0 where
  no_reply no_build key_error assertion rpc_error task_quit : Fault
  index_error value_error runtime_error system_exit terminate_timeout : Fault

pub data Result {ℓ} (T : Type ℓ) : Type ℓ where
  err : Fault → Result T
  ok : T → Result T

abbrev pub or_fault {ℓ} : {T : Type ℓ} → Fault → Option T → Result T
or_fault fault (some t) = ok t
or_fault fault none = err fault

pub ok-injective {ℓ} : {T : Type ℓ} {s t : T} → ok s ≡ ok t → s ≡ t
ok-injective same = cc

-- The rest of a handler runs unless an exception was raised.
infixl 5 ◌>>=◌
abbrev pub ◌>>=◌ {ℓ κ} : {S : Type ℓ} {T : Type κ} → Result S → (S → Result T) → Result T
err fault >>= rest = err fault
ok s >>= rest = rest s

-- A handler that returns has gone through its first step.
pub >>=-eq-ok {ℓ κ} :
    {S : Type ℓ} {T : Type κ} (first : Result S) (rest : S → Result T) {t : T}
    → (first >>= rest) ≡ ok t
    → (s : S) × (first ≡ ok s) × (rest s ≡ ok t)
>>=-eq-ok (err fault) rest returns = cc
>>=-eq-ok (ok s) rest returns = (s, refl, returns)

pub >>=-ok {ℓ κ} :
    {S : Type ℓ} {T : Type κ} (first : Result S) (rest : S → Result T) (s : S) (t : T)
    → first ≡ ok s
    → rest s ≡ ok t
    → (first >>= rest) ≡ ok t
>>=-ok first rest s t went returns = rw went returns
