-- ===== src/System/Ends.antt =====
-- What the process ends on, part by part.
use cache_lens.Prelude.{List, Result, ok, err}
use cache_lens.System.{Call, Traced, bind_from, ◌>>=◌}
use cache_lens.System.Post.{PostOf, PostOrOf}

abbrev pub EndsOf : {E A : Type 0} → (E → Type 0) → Result E A → Type 0
EndsOf F (ok a) = Unit
EndsOf F (err e) = F e

abbrev pub Ends : {E A : Type 0} → (E → Type 0) → Traced E A → Type 0
Ends F m = EndsOf F m.result

module _ {E A B : Type 0} (F G : E → Type 0) where
  Ends-bind_from :
      (calls : List Call) (r : Result E A) (f : A → Traced E B)
      → EndsOf F r
      → ((e : E) → F e → G e)
      → ((a : A) → Ends G (f a))
      → Ends G (bind_from calls r f)
  Ends-bind_from calls (ok a) f h t g = g a
  Ends-bind_from calls (err e) f h t g = t e h

  pub Ends-bind :
      (m : Traced E A) (f : A → Traced E B)
      → Ends F m
      → ((e : E) → F e → G e)
      → ((a : A) → Ends G (f a))
      → Ends G (m >>= f)
  Ends-bind m f h t g = Ends-bind_from m.calls m.result f h t g

module _ {E A : Type 0} where
  pub EndsOf-map :
      (F G : E → Type 0) (r : Result E A) → ((e : E) → F e → G e) → EndsOf F r → EndsOf G r
  EndsOf-map F G (ok a) t h = tt
  EndsOf-map F G (err e) t h = t e h

  -- Both sides of a part.
  pub PostOrOf-EndsOf :
      (P : A → List Call → Type 0) (F : E → Type 0) (calls : List Call) (r : Result E A)
      → PostOf P calls r
      → EndsOf F r
      → PostOrOf P F calls r
  PostOrOf-EndsOf P F calls (ok a) h g = h
  PostOrOf-EndsOf P F calls (err e) h g = g
