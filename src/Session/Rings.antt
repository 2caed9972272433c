-- ===== src/Session/Rings.antt =====
-- All rings of one event, drained by the loop over the CPUs.
use cache_lens.Prelude.{
  ℕ, ◌⊎◌, inl, inr, Bool, true, false, List, [], ◌∷◌, Result, ok, err, ◌>>=◌, if◌then◌else◌,
}
use cache_lens.Perf.{Fatal, PerfAbi}
use cache_lens.Drain.Stream.{Excuse}
use cache_lens.Session.{Shown, SamplingEvent, drain_ring, drain_rings}
use cache_lens.Session.Ring.{
  Track, Grows, IsTrack, Has, HasAll, ShowsTrack, Has-HasAll, Excuse-Grows, RingDone,
  drain_ring-RingDone,
}

-- A relation between the rings at the same place of two lists of one length.
abbrev pub Each : {A B : Type 0} → (A → B → Type 0) → List A → List B → Type 0
Each R [] [] = Unit
Each R [] (y ∷ ys) = ⊥
Each R (x ∷ xs) [] = ⊥
Each R (x ∷ xs) (y ∷ ys) = R x y × Each R xs ys

pub Each-map :
    {A B : Type 0} (R S : A → B → Type 0) (xs : List A) (ys : List B)
    → ((x : A) (y : B) → R x y → S x y)
    → Each R xs ys
    → Each S xs ys
Each-map R S [] [] f h = tt
Each-map R S [] (y ∷ ys) f h = absurd h
Each-map R S (x ∷ xs) [] f h = absurd h
Each-map R S (x ∷ xs) (y ∷ ys) f h = (f x y h.0, Each-map R S xs ys f h.1)

pub Each-through :
    {A B C : Type 0} (R : A → B → Type 0) (S : A → C → Type 0) (T : B → C → Type 0) (xs : List A)
    (ys : List B) (zs : List C)
    → ((x : A) (y : B) (z : C) → R x y → S x z → T y z)
    → Each R xs ys
    → Each S xs zs
    → Each T ys zs
Each-through R S T [] [] [] f h k = tt
Each-through R S T [] [] (z ∷ zs) f h k = absurd k
Each-through R S T [] (y ∷ ys) zs f h k = absurd h
Each-through R S T (x ∷ xs) [] zs f h k = absurd h
Each-through R S T (x ∷ xs) (y ∷ ys) [] f h k = absurd k
Each-through R S T (x ∷ xs) (y ∷ ys) (z ∷ zs) f h k =
    (f x y z h.0 k.0, Each-through R S T xs ys zs f h.1 k.1)

module _ (abi : PerfAbi) where
  abbrev pub AllTracks : List Track → Type 0
  AllTracks [] = Unit
  AllTracks (t ∷ ts) = IsTrack abi t × AllTracks ts

  -- Some ring gives the reason to stop.
  abbrev pub AnyExcuse : List Track → Fatal → Type 0
  AnyExcuse [] f = ⊥
  AnyExcuse (t ∷ ts) f = Excuse abi t.size t.recs f ⊎ AnyExcuse ts f

  pub AnyExcuse-Grows :
      (ts us : List Track) (f : Fatal) → Each Grows ts us → AnyExcuse ts f → AnyExcuse us f
  AnyExcuse-Grows [] us f g x = absurd x
  AnyExcuse-Grows (t ∷ ts) [] f g x = absurd g
  AnyExcuse-Grows (t ∷ ts) (u ∷ us) f g (inl x) = inl (Excuse-Grows abi t u f g.0 x)
  AnyExcuse-Grows (t ∷ ts) (u ∷ us) f g (inr x) = inr (AnyExcuse-Grows ts us f g.1 x)

  -- The ring after a loop that drains it or not.
  abbrev pub HasAfter : Bool → Track → SamplingEvent → Type 0
  HasAfter true t e = HasAll abi t e
  HasAfter false t e = Has abi t e

  Has-HasAfter : (b : Bool) (t : Track) (e : SamplingEvent) → HasAfter b t e → Has abi t e
  Has-HasAfter true t e h = Has-HasAll abi h
  Has-HasAfter false t e h = h

  abbrev pub EachAfter : (Shown → Bool) → List Shown → List Track → List SamplingEvent → Type 0
  EachAfter pick [] [] [] = Unit
  EachAfter pick (s ∷ ss) (t ∷ ts) (e ∷ es) = HasAfter (pick s) t e × EachAfter pick ss ts es
  EachAfter pick _ _ _ = ⊥

  abbrev pub RingsDone :
      (Shown → Bool) → List Shown → List Track → Result Fatal (List SamplingEvent) → Type 0
  RingsDone pick ss ts (ok es) = EachAfter pick ss ts es
  RingsDone pick ss ts (err f) = AnyExcuse ts f

  abbrev PickDone : Bool → Track → Result Fatal SamplingEvent → Type 0
  PickDone b t (ok e) = HasAfter b t e
  PickDone b t (err f) = Excuse abi t.size t.recs f

  RingsDone-bind :
      (pick : Shown → Bool) (s : Shown) (ss : List Shown) (t : Track) (ts : List Track)
      (r : Result Fatal SamplingEvent) (rs : Result Fatal (List SamplingEvent))
      → PickDone (pick s) t r
      → RingsDone pick ss ts rs
      → RingsDone pick (s ∷ ss) (t ∷ ts) (r >>= λ e. rs >>= λ es. ok (e ∷ es))
  RingsDone-bind pick s ss t ts (ok e) (ok es) p q = (p, q)
  RingsDone-bind pick s ss t ts (ok e) (err f) p q = inr q
  RingsDone-bind pick s ss t ts (err f) rs p q = inl p

  RingDone-PickDone :
      (event : ℕ) (b : Bool) (s : Shown) (t : Track) (e : SamplingEvent)
      → IsTrack abi t
      → ShowsTrack abi t s
      → Has abi t e
      → PickDone b t (if b then drain_ring abi event s e else ok e)
  RingDone-PickDone event false s t e v shows h = h
  RingDone-PickDone event true s t e v shows h =
      same (drain_ring abi event s e) (drain_ring-RingDone abi event t s e v shows h)
    where
      same : (r : Result Fatal SamplingEvent) → RingDone abi t r → PickDone true t r
      same (ok e) x = x
      same (err f) x = x

  -- The loop ends with the rings as it is to leave them, or for a reason that a ring gives.
  pub drain_rings-RingsDone :
      (event : ℕ) (pick : Shown → Bool) (ss : List Shown) (ts : List Track)
      (es : List SamplingEvent)
      → AllTracks ts
      → Each (ShowsTrack abi) ts ss
      → Each (Has abi) ts es
      → RingsDone pick ss ts (drain_rings abi pick event ss es)
  unfolding drain_rings
  drain_rings-RingsDone event pick [] [] [] v shows h = tt
  drain_rings-RingsDone event pick [] [] (e ∷ es) v shows h = absurd h
  drain_rings-RingsDone event pick [] (t ∷ ts) es v shows h = absurd shows
  drain_rings-RingsDone event pick (s ∷ ss) [] es v shows h = absurd shows
  drain_rings-RingsDone event pick (s ∷ ss) (t ∷ ts) [] v shows h = absurd h
  drain_rings-RingsDone event pick (s ∷ ss) (t ∷ ts) (e ∷ es) v shows h =
      RingsDone-bind pick s ss t ts (if pick s then drain_ring abi event s e else ok e)
        (drain_rings abi pick event ss es) (RingDone-PickDone event (pick s) s t e v.0 shows.0 h.0)
        (drain_rings-RingsDone event pick ss ts es v.1 shows.1 h.1)

  pub EachAfter-Has :
      (pick : Shown → Bool) (ss : List Shown) (ts : List Track) (es : List SamplingEvent)
      → EachAfter pick ss ts es
      → Each (Has abi) ts es
  EachAfter-Has pick [] [] [] h = tt
  EachAfter-Has pick (s ∷ ss) (t ∷ ts) (e ∷ es) h =
      (Has-HasAfter (pick s) t e h.0, EachAfter-Has pick ss ts es h.1)
  EachAfter-Has pick _ _ _ h = absurd h

  -- After the last loop, which drains every ring.
  pub EachAfter-HasAll :
      (ss : List Shown) (ts : List Track) (es : List SamplingEvent)
      → EachAfter (λ _. true) ss ts es
      → Each (HasAll abi) ts es
  EachAfter-HasAll [] [] [] h = tt
  EachAfter-HasAll (s ∷ ss) (t ∷ ts) (e ∷ es) h = (h.0, EachAfter-HasAll ss ts es h.1)
  EachAfter-HasAll _ _ _ h = absurd h
