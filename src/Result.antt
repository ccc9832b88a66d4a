-- ===== src/Result.antt =====
-- Go's `error` values. The predicates of k8s.io/apimachinery/pkg/api/errors look at the kind; what
-- `fmt.Errorf` builds is `plain`.
use k8s_ai_remediator.Prelude.{Bytes, Bool, true, false, Option, none, some, ◌≡◌, refl}

pub data ErrorKind : Type 0 where
  plain not_found conflict : ErrorKind

pub record Error : Type 0 where
  pub kind : ErrorKind
  pub text : Bytes

pub data Result {ℓ} (A : Type ℓ) : Type ℓ where
  ok : A → Result A
  err : Error → Result A

abbrev pub errorf : Bytes → Error
errorf s = record { kind = plain; text = s }

abbrev pub fail {ℓ} : {A : Type ℓ} → Bytes → Result A
fail s = err (errorf s)

abbrev pub is_not_found : Error → Bool
is_not_found e = elim e.kind [ not_found ↦ true | _ ↦ false ]

abbrev pub is_conflict : Error → Bool
is_conflict e = elim e.kind [ conflict ↦ true | _ ↦ false ]

infixl 5 ◌>>=◌
abbrev pub ◌>>=◌ {ℓ κ} : {A : Type ℓ} {B : Type κ} → Result A → (A → Result B) → Result B
ok a >>= f = f a
err e >>= f = err e

-- `if err := f(); err != nil { return err }` and then `g`
infixl 5 ◌orelse◌
abbrev pub ◌orelse◌ : Option Error → Option Error → Option Error
none orelse g = g
some e orelse g = some e

pub ok_inj {ℓ} : {A : Type ℓ} {a b : A} → ok a ≡ ok b → a ≡ b
ok_inj e = cc e

-- What a chain that succeeds has been through.
pub ok-bind {ℓ κ} :
    {A : Type ℓ} {B : Type κ} (r : Result A) (f : A → Result B) (b : B)
    → (r >>= f) ≡ ok b
    → (a : A) × (r ≡ ok a) × (f a ≡ ok b)
ok-bind (ok a) f b h = (a, refl, h)
ok-bind (err e) f b h = absurd (cc h)
