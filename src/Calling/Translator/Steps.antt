-- ===== src/Calling/Translator/Steps.antt =====
-- What a translation that ends in an event has passed.
use monogo.Base.{Bool, true, false, Option, none, some, String, Text, ◌∷◌, [], ◌≡◌, refl, is_empty}
use monogo.Errors.{Error}
use monogo.Effects.{Result, ok, err}
use monogo.Calling.Translator.{◌>>=◌, ◌>>◌, demand, some_or, required}

pub eq_of_ok_eq : {A : Type 0} {a b : A} → ok a ≡ ok b → a ≡ b
eq_of_ok_eq h = cc

pub err-ok : {A : Type 0} {d : Error} {a : A} → err d ≡ ok a → ⊥
err-ok i = cc

pub bind-ok :
    {A B : Type 0} (r : Result A) (k : A → Result B) {b : B}
    → (r >>= k) ≡ ok b
    → (a : A) × (r ≡ ok a) × (k a ≡ ok b)
bind-ok (ok a) k h = (a, refl, h)
bind-ok (err e) k h = absurd (err-ok h)

pub demand-ok :
    {B : Type 0} (t : Bool) (e : Error) (r : Result B) {b : B}
    → (demand t e >> r) ≡ ok b
    → (t ≡ true) × (r ≡ ok b)
unfolding demand
demand-ok true e r h = (refl, h)
demand-ok false e r h = absurd (err-ok h)

pub some_or-ok :
    {A B : Type 0} (o : Option A) (e : Error) (k : A → Result B) {b : B}
    → (some_or o e >>= k) ≡ ok b
    → (a : A) × (o ≡ some a) × (k a ≡ ok b)
unfolding some_or
some_or-ok none e k h = absurd (err-ok h)
some_or-ok (some a) e k h = (a, refl, h)

pub required-ok :
    {B : Type 0} (t : Text) (message : String) (k : Text → Result B) {b : B}
    → (required t message >>= k) ≡ ok b
    → (is_empty t ≡ false) × (k t ≡ ok b)
unfolding required
required-ok [] message k h = absurd (err-ok h)
required-ok (c ∷ t) message k h = (refl, h)
