-- ===== src/Base/Outcome.antt =====
-- How a call ends. A function that returns Rust's `Result` and may also panic has an `Outcome`;
-- one that can only panic has an `Option`, in which `none` is the panic.
use mathlib.Core.Path.{◌≡◌, refl, sym, ap, ◌∙◌}
use mathlib.Core.Option.{Option, none, some}
use mathlib.Core.Bool.{Bool, true, false}

pub data Outcome (E A : Type 0) : Type 0 where
  ok : A → Outcome E A
  err : E → Outcome E A
  panics : Outcome E A

infixl 5 ◌>>=◌ ◌>>◌
abbrev pub ◌>>=◌ : {E A B : Type 0} → Outcome E A → (A → Outcome E B) → Outcome E B
ok a >>= f = f a
err e >>= f = err e
panics >>= f = panics

abbrev pub ◌>>◌ : {E B : Type 0} → Outcome E (Unit {0}) → Outcome E B → Outcome E B
m >> k = m >>= λ _. k

-- `Option::ok_or` with `?`.
abbrev pub ok_or : {E A : Type 0} → E → Option A → Outcome E A
ok_or e none = err e
ok_or e (some a) = ok a

-- `unwrap`, `expect` or `assert!` of what may be absent.
abbrev pub unwrap : {E A : Type 0} → Option A → Outcome E A
unwrap none = panics
unwrap (some a) = ok a

-- `Result::unwrap`.
abbrev pub unwrap_ok : {E A : Type 0} → Outcome E A → Option A
unwrap_ok (ok a) = some a
unwrap_ok _ = none

abbrev pub map_err : {E F A : Type 0} → (E → F) → Outcome E A → Outcome F A
map_err g (ok a) = ok a
map_err g (err e) = err (g e)
map_err g panics = panics

abbrev pub ensure : {E : Type 0} → Bool → E → Outcome E (Unit {0})
ensure true e = ok tt
ensure false e = err e

pub bind-eq-ok :
    {E A B : Type 0} (m : Outcome E A) (f : A → Outcome E B) {b : B}
    → (m >>= f) ≡ ok b
    → (a : A) × (m ≡ ok a) × (f a ≡ ok b)
bind-eq-ok (ok a) f h = (a, refl, h)
bind-eq-ok (err e) f h = cc
bind-eq-ok panics f h = cc

result_or : {E A : Type 0} → A → Outcome E A → A
result_or a (ok b) = b
result_or a _ = a

pub ok-injective : {E A : Type 0} (m : Outcome E A) (a b : A) → m ≡ ok a → m ≡ ok b → a ≡ b
unfolding result_or
ok-injective m a b h k = ap (result_or a) (sym h ∙ k)

pub ensure-eq-ok : {E : Type 0} (b : Bool) (e : E) {u : Unit {0}} → ensure b e ≡ ok u → b ≡ true
ensure-eq-ok true e h = refl
ensure-eq-ok false e h = cc

pub ok_or-eq-ok : {E A : Type 0} (e : E) (o : Option A) {a : A} → ok_or e o ≡ ok a → o ≡ some a
ok_or-eq-ok e none h = cc
ok_or-eq-ok e (some b) {a} h = ap some (ok-injective _ b a refl h)
