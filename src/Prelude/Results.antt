-- ===== src/Prelude/Results.antt =====
-- Results with errors of any type, and their monad.

pub data Result (E A : Type 0) : Type 0 where
  ok : A → Result E A
  err : E → Result E A

-- `abbrev`, so that a bind of a constructor computes wherever it stands.
infixl 5 ◌>>=◌
abbrev pub ◌>>=◌ : {E A B : Type 0} → Result E A → (A → Result E B) → Result E B
ok a >>= f = f a
err e >>= f = err e
