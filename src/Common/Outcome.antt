-- ===== src/Common/Outcome.antt =====
-- How a tool ends: with a result, or with exit status 1 for some reason.
use mathlib.Core.Path.{◌≡◌, ap, subst}

pub data Outcome (F : Type 0) (A : Type 0) : Type 0 where
  ok : A → Outcome F A
  exit : F → Outcome F A

-- The rest of a run, which an exit skips.
infixl 5 ◌>>=◌
abbrev pub ◌>>=◌ : {F A B : Type 0} → Outcome F A → (A → Outcome F B) → Outcome F B
exit reason >>= rest = exit reason
ok a >>= rest = rest a

-- What a run answers, if it does, has the property.
abbrev pub Ensures : {F A : Type 0} → (A → Type 0) → Outcome F A → Type 0
Ensures P (ok a) = P a
Ensures P (exit reason) = Unit {0}

pub Ensures-then :
    {F A B : Type 0} (P : A → Type 0) (Q : B → Type 0) (run : Outcome F A) (rest : A → Outcome F B)
    → Ensures P run
    → ((a : A) → P a → Ensures Q (rest a))
    → Ensures Q (run >>= rest)
Ensures-then P Q (ok a) rest first second = second a first
Ensures-then P Q (exit reason) rest first second = tt

pub Ensures_ok :
    {F A : Type 0} (P : A → Type 0) (run : Outcome F A) (a : A) → Ensures P run → run ≡ ok a → P a
Ensures_ok P (ok b) a h e = subst P (ap (λ (r : Outcome _ _). elim r [ ok c ↦ c | exit f ↦ b ]) e) h
Ensures_ok P (exit reason) a h e = cc
