-- ===== src/Prelude/Results.antt =====
-- Go's `(T, error)`: a value, or an error that stands for its code.
use mathlib.Core.Path.{◌≡◌, refl}
use mathlib.Core.Bool.{Bool, true, false}
use symphony_go.Prelude.Texts.{Text}

pub data Result {ℓ} (V : Type ℓ) : Type ℓ where
  err : (code : Text) → Result V
  ok : (value : V) → Result V

-- `if !test { return error }`
abbrev pub ensure : Bool → Text → Result (Unit {0})
ensure test code = elim test [ true ↦ ok tt | false ↦ err code ]

-- `if err != nil { return err }` between a call and the rest of the function.
infixl 5 ◌>>=◌
abbrev pub ◌>>=◌ {ℓ κ} : {V : Type ℓ} {W : Type κ} → Result V → (V → Result W) → Result W
call >>= rest = elim call [ err code ↦ err code | ok value ↦ rest value ]

infixl 5 ◌>>◌
abbrev pub ◌>>◌ {ℓ} : {W : Type ℓ} → Result (Unit {0}) → Result W → Result W
call >> rest = elim call [ err code ↦ err code | ok _ ↦ rest ]

-- A function that returns a value had one from its call.
pub >>=-eq-ok {ℓ κ} :
    {V : Type ℓ} {W : Type κ} (call : Result V) (rest : V → Result W) {w : W}
    → (call >>= rest) ≡ ok w
    → (v : V) × (call ≡ ok v) × (rest v ≡ ok w)
>>=-eq-ok (ok v) rest done = (v, refl, done)
>>=-eq-ok (err code) rest done = cc
