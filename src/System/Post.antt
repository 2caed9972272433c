-- ===== src/System/Post.antt =====
-- What holds of a part's result and calls, and of the end of the process if it comes to one, part by
-- part.
use cache_lens.Prelude.{List, ◌++◌, Result, ok, err}
use cache_lens.System.{Call, Traced, bind_from, ◌>>=◌}

module _ {E A : Type 0} (P : A → List Call → Type 0) (F : E → Type 0) where
  abbrev pub PostOrOf : List Call → Result E A → Type 0
  PostOrOf calls (ok a) = P a calls
  PostOrOf calls (err e) = F e

  abbrev pub PostOr : Traced E A → Type 0
  PostOr m = PostOrOf m.calls m.result

-- What holds of the calls behind others.
PostOr-behind :
    {E B : Type 0} (Q : B → List Call → Type 0) (F : E → Type 0) (before calls : List Call)
    (r : Result E B)
    → PostOrOf (λ b later. Q b (before ++ later)) F calls r
    → PostOrOf Q F (before ++ calls) r
PostOr-behind Q F before calls (ok b) h = h
PostOr-behind Q F before calls (err e) h = h

module _ {E A B : Type 0} (P : A → List Call → Type 0) (Q : B → List Call → Type 0)
    (F : E → Type 0) where
  PostOr-bind_from :
      (calls : List Call) (r : Result E A) (f : A → Traced E B)
      → PostOrOf P F calls r
      → ((a : A) (before : List Call)
          → P a before
          → PostOr (λ b later. Q b (before ++ later)) F (f a))
      → PostOr Q F (bind_from calls r f)
  PostOr-bind_from calls (ok a) f h k =
      PostOr-behind Q F calls (f a).calls (f a).result (k a calls h)
  PostOr-bind_from calls (err e) f h k = h

  pub PostOr-bind :
      (m : Traced E A) (f : A → Traced E B)
      → PostOr P F m
      → ((a : A) (before : List Call)
          → P a before
          → PostOr (λ b later. Q b (before ++ later)) F (f a))
      → PostOr Q F (m >>= f)
  PostOr-bind m f h k = PostOr-bind_from m.calls m.result f h k

pub PostOr-map :
    {E A : Type 0} (P Q : A → List Call → Type 0) (F G : E → Type 0) (calls : List Call)
    (r : Result E A)
    → ((a : A) (c : List Call) → P a c → Q a c)
    → ((e : E) → F e → G e)
    → PostOrOf P F calls r
    → PostOrOf Q G calls r
PostOr-map P Q F G calls (ok a) f g h = f a calls h
PostOr-map P Q F G calls (err e) f g h = g e h

-- Where nothing is said of the end of the process.
abbrev pub PostOf : {E A : Type 0} → (A → List Call → Type 0) → List Call → Result E A → Type 0
PostOf P calls r = PostOrOf P (λ _. Unit) calls r

abbrev pub Post : {E A : Type 0} → (A → List Call → Type 0) → Traced E A → Type 0
Post P m = PostOr P (λ _. Unit) m

pub Post-bind :
    {E A B : Type 0} (P : A → List Call → Type 0) (Q : B → List Call → Type 0) (m : Traced E A)
    (f : A → Traced E B)
    → Post P m
    → ((a : A) (before : List Call) → P a before → Post (λ b later. Q b (before ++ later)) (f a))
    → Post Q (m >>= f)
Post-bind P Q m f h k = PostOr-bind P Q (λ _. Unit) m f h k
