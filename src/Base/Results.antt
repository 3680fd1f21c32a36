-- ===== src/Base/Results.antt =====
-- Rust's `Result` with the error type first, its `?` as bind, and `guard` for an early return.
use mathlib.Core.Path.{◌≡◌, refl}
use mathlib.Core.Logic.{◌⊎◌, inl, inr}
use mathlib.Core.Bool.{Bool, true, false}
use mathlib.Core.Option.{Option, none, some}

pub data Result {ℓ κ} (E : Type ℓ) (A : Type κ) : Type (ℓ ⊔ κ) where
  ok : A → Result E A
  err : E → Result E A

infixl 5 ◌>>=◌ ◌>>◌
abbrev pub ◌>>=◌ {ℓ κ λ'} :
    {E : Type ℓ} {A : Type κ} {B : Type λ'} → Result E A → (A → Result E B) → Result E B
ok a >>= f = f a
err e >>= f = err e

abbrev pub ◌>>◌ {ℓ κ} : {E : Type ℓ} {B : Type κ} → Result E (Unit {0}) → Result E B → Result E B
m >> k = m >>= λ _. k

-- `if test { return Err(e) }`
abbrev pub fail_if {ℓ} : {E : Type ℓ} → Bool → E → Result E (Unit {0})
fail_if true e = err e
fail_if false e = ok tt

abbrev pub ok_or {ℓ κ} : {E : Type ℓ} {A : Type κ} → Option A → E → Result E A
ok_or none e = err e
ok_or (some a) e = ok a

abbrev pub map_err {ℓ κ λ'} :
    {E : Type ℓ} {F : Type κ} {A : Type λ'} → (E → F) → Result E A → Result F A
map_err f (ok a) = ok a
map_err f (err e) = err (f e)

pub >>=_assoc {ℓ κ λ' μ} :
    {E : Type ℓ} {A : Type κ} {B : Type λ'} {C : Type μ} (m : Result E A) (f : A → Result E B)
    (g : B → Result E C)
    → ((m >>= f) >>= g) ≡ (m >>= (λ a. f a >>= g))
>>=_assoc (ok a) f g = refl
>>=_assoc (err e) f g = refl

pub Result-cases {ℓ κ} :
    {E : Type ℓ} {A : Type κ} (m : Result E A) → ((e : E) × (m ≡ err e)) ⊎ ((a : A) × (m ≡ ok a))
Result-cases (err e) = inl (e, refl)
Result-cases (ok a) = inr (a, refl)

-- A run of two tests and a partial step that succeeds.
pub guarded_step {ℓ κ λ'} :
    {E : Type ℓ} {A : Type κ} {B : Type λ'} (a b : Bool) (e f g : E) (o : Option A) (k : A → B)
    (r : B)
    → (do fail_if a e; fail_if b f; p ← ok_or o g; ok (k p)) ≡ ok r
    → (a ≡ false) × (b ≡ false) × ((p : A) × (o ≡ some p) × (k p ≡ r))
guarded_step true b e f g o k r h = absurd (cc h)
guarded_step false true e f g o k r h = absurd (cc h)
guarded_step false false e f g none k r h = absurd (cc h)
guarded_step false false e f g (some p) k r h = (refl, refl, (p, refl, cc h))

-- What a run that succeeds went through.
pub >>=-eq-ok {ℓ κ λ'} :
    {E : Type ℓ} {A : Type κ} {B : Type λ'} (m : Result E A) (f : A → Result E B) (b : B)
    → (m >>= f) ≡ ok b
    → (a : A) × (m ≡ ok a) × (f a ≡ ok b)
>>=-eq-ok (ok a) f b h = (a, refl, h)
>>=-eq-ok (err e) f b h = absurd (cc h)

pub fail_if-eq-ok {ℓ κ} :
    {E : Type ℓ} {B : Type κ} (test : Bool) (e : E) (m : Result E B) (b : B)
    → (fail_if test e >> m) ≡ ok b
    → (test ≡ false) × (m ≡ ok b)
fail_if-eq-ok true e m b h = absurd (cc h)
fail_if-eq-ok false e m b h = (refl, h)

pub ok_or-eq-ok {ℓ κ λ'} :
    {E : Type ℓ} {A : Type κ} {B : Type λ'} (o : Option A) (e : E) (f : A → Result E B) (b : B)
    → (ok_or o e >>= f) ≡ ok b
    → (a : A) × (o ≡ some a) × (f a ≡ ok b)
ok_or-eq-ok none e f b h = absurd (cc h)
ok_or-eq-ok (some a) e f b h = (a, refl, h)

pub map_err-eq-ok {ℓ κ λ'} :
    {E : Type ℓ} {F : Type κ} {A : Type λ'} (f : E → F) (m : Result E A) (a : A)
    → map_err f m ≡ ok a
    → m ≡ ok a
map_err-eq-ok f (ok b) a h = cc h
map_err-eq-ok f (err e) a h = absurd (cc h)
