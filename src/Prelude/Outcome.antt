-- ===== src/Prelude/Outcome.antt =====
-- What a C++ call produces: a value, or the message of the exception that it throws.
use Prim.Native.String.{String}
use mathlib.Core.Bool.{Bool, true, false}

pub data Result {ℓ} (Value : Type ℓ) : Type ℓ where
  ok : Value → Result Value
  err : (what : String) → Result Value

-- `if (bad) throw invalid_argument (what)`.
abbrev pub throw_if : (bad : Bool) (what : String) → Result (Unit {0})
throw_if false what = ok tt
throw_if true what = err what

-- An exception leaves the caller as well.
infixl 5 ◌>>=◌
abbrev pub ◌>>=◌ {ℓ κ} : {V : Type ℓ} {W : Type κ} (call : Result V) → (V → Result W) → Result W
err what >>= rest = err what
ok v >>= rest = rest v

infixl 5 ◌>>◌
abbrev pub ◌>>◌ {κ} : {W : Type κ} → Result (Unit {0}) → Result W → Result W
check >> rest = check >>= (λ done. rest)
