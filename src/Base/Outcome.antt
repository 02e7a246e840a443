-- ===== src/Base/Outcome.antt =====
-- What a Rust call can do: return `Ok`, return `Err`, or panic (a failed assertion, a slice off a
-- character boundary).
use slmodem_sip_bridge.Base.{Bool, true, false, Option, none, some, ◌≡◌, ◌≢◌, ◌⊎◌, inl, inr, refl}

pub data Outcome {ℓ} (E : Type 0) (A : Type ℓ) : Type ℓ where
  ok : A → Outcome E A
  bail : E → Outcome E A
  panic : Outcome E A

infixl 5 ◌>>=◌ ◌>>◌
abbrev pub ◌>>=◌ {ℓ κ} :
    {E : Type 0} {A : Type ℓ} {B : Type κ} → Outcome E A → (A → Outcome E B) → Outcome E B
ok a >>= f = f a
bail e >>= f = bail e
panic >>= f = panic

abbrev pub ◌>>◌ {κ} : {E : Type 0} {B : Type κ} → Outcome E (Unit {0}) → Outcome E B → Outcome E B
m >> k = m >>= λ _. k

-- `assert!`.
abbrev pub assert : {E : Type 0} → Bool → Outcome E (Unit {0})
assert true = ok tt
assert false = panic

-- `if !test { bail!(e) }`.
abbrev pub ensure : {E : Type 0} → Bool → E → Outcome E (Unit {0})
ensure true e = ok tt
ensure false e = bail e

-- `ok_or_else(..)?`.
abbrev pub ok_or {ℓ} : {E : Type 0} {A : Type ℓ} → Option A → E → Outcome E A
ok_or (some a) e = ok a
ok_or none e = bail e

-- `map_err(f)`.
abbrev pub map_err {ℓ} : {E F : Type 0} {A : Type ℓ} → (E → F) → Outcome E A → Outcome F A
map_err f (ok a) = ok a
map_err f (bail e) = bail (f e)
map_err f panic = panic

-- `.ok()`, of a call that does not panic.
abbrev pub to_option {ℓ} : {E : Type 0} {A : Type ℓ} → Outcome E A → Option A
to_option (ok a) = some a
to_option (bail e) = none
to_option panic = none

-- What the steps of a chain were, if it returned `Ok`.
pub ok-inj {ℓ} : {E : Type 0} {A : Type ℓ} (a b : A) → ◌≡◌ {A = Outcome E A} (ok a) (ok b) → a ≡ b
ok-inj a b h = cc

pub assert-inv :
    {E : Type 0} (test : Bool) (u : Unit {0}) → assert {E = E} test ≡ ok u → test ≡ true
assert-inv true u h = refl
assert-inv false u h = cc

pub ensure-inv :
    {E : Type 0} (test : Bool) (e : E) (u : Unit {0}) → ensure test e ≡ ok u → test ≡ true
ensure-inv true e u h = refl
ensure-inv false e u h = cc

pub ok_or-inv {ℓ} :
    {E : Type 0} {A : Type ℓ} (o : Option A) (e : E) (a : A) → ok_or o e ≡ ok a → o ≡ some a
ok_or-inv none e a h = cc
ok_or-inv (some b) e a h = cc

pub map_err-inv {ℓ} :
    {E F : Type 0} {A : Type ℓ} (f : E → F) (m : Outcome E A) (a : A)
    → map_err f m ≡ ok a
    → m ≡ ok a
map_err-inv f (ok b) a h = cc
map_err-inv f (bail e) a h = cc
map_err-inv f panic a h = cc

-- The two calls of a bind that returned `Ok`: the value of the first, and the second with it.
abbrev pub BothOk {ℓ κ} :
    {E : Type 0} {A : Type ℓ} {B : Type κ} → Outcome E A → (A → Outcome E B) → B → Type (ℓ ⊔ κ)
BothOk first second b = (value : _) × (first ≡ ok value) × (second value ≡ ok b)

pub >>=-ok {ℓ κ} :
    {E : Type 0} {A : Type ℓ} {B : Type κ} {b : B} (first : Outcome E A) (second : A → Outcome E B)
    → (first >>= second) ≡ ok b
    → BothOk first second b
>>=-ok (ok value) second returned = (value, refl, returned)
>>=-ok (bail e) second returned = cc
>>=-ok panic second returned = cc

-- No panic: the call returns `Ok` or `Err`.
abbrev pub Calm {ℓ} : {E : Type 0} {A : Type ℓ} → Outcome E A → Type ℓ
Calm m = m ≢ panic

pub >>=-Calm {ℓ κ} :
    {E : Type 0} {A : Type ℓ} {B : Type κ} (m : Outcome E A) (f : A → Outcome E B)
    → Calm m
    → ((a : A) → Calm (f a))
    → Calm (m >>= f)
>>=-Calm (ok a) f calm next = next a
>>=-Calm (bail e) f calm next = λ h. cc
>>=-Calm panic f calm next = absurd (calm refl)

pub ok_or-Calm {ℓ} : {E : Type 0} {A : Type ℓ} (o : Option A) (e : E) → Calm (ok_or o e)
ok_or-Calm none e = λ h. cc
ok_or-Calm (some a) e = λ h. cc

pub ensure-Calm : {E : Type 0} (test : Bool) (e : E) → Calm (ensure test e)
ensure-Calm true e = λ h. cc
ensure-Calm false e = λ h. cc

-- The same failure, as an outcome of another type.
pub data Fails {E A B : Type 0} : Outcome E A → Outcome E B → Type 0 where
  error : {m : Outcome E A} (e : E) → m ≡ bail e → Fails m (bail e)
  crash : {m : Outcome E A} → m ≡ panic → Fails m panic

-- A bind fails in its first call or in its second.
pub Fails->>= :
    {E A B C : Type 0} (first : Outcome E A) (second : A → Outcome E B) {o : Outcome E C}
    → Fails (first >>= second) o
    → Fails first o ⊎ ((value : A) × (first ≡ ok value) × Fails (second value) o)
Fails->>= (ok value) second h = inr (value, refl, h)
Fails->>= (bail x) second (error e h) = inl (error e (cc))
Fails->>= (bail x) second (crash h) = absurd (cc)
Fails->>= panic second (error e h) = absurd (cc)
Fails->>= panic second (crash h) = inl (crash refl)

pub Fails-ok : {E A B : Type 0} {a : A} {o : Outcome E B} → Fails (ok a) o → ⊥
Fails-ok (error e h) = cc
Fails-ok (crash h) = cc
