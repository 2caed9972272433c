-- ===== src/Launch/Table.antt =====
-- The table for poll: one descriptor for each ring, and no entry outside of it.
use cache_lens.Prelude.{
  ℕ, zero, suc, ◌+◌, ◌*◌, ◌≡◌, refl, sym, ◌∙◌, ap, append-nil, append_assoc, none, some, List, [],
  ◌∷◌, ◌++◌, arith, length, length-append, map,
}
use cache_lens.Session.{Both}
use cache_lens.Launch.{Ring, set_at, fill_cpus, zeros, fill_pfd}

-- The entry behind some others.
set_at-behind :
    (pre : List ℕ) (v x : ℕ) (post : List ℕ)
    → set_at (length pre) v (pre ++ x ∷ post) ≡ some (pre ++ v ∷ post)
unfolding set_at
set_at-behind [] v x post = refl
set_at-behind (p ∷ pre) v x post = rw (set_at-behind pre v x post) refl

abbrev fds : List Ring → List ℕ
fds rs = map (λ r. r.fd) rs

-- The entries of one event are written over, and no other.
fill_cpus_in_place :
    (nr_cpus i c : ℕ) (rs : List Ring) (pre old post : List ℕ)
    → length old ≡ length rs
    → length pre ≡ i * nr_cpus + c
    → fill_cpus nr_cpus i c rs (pre ++ (old ++ post)) ≡ some (pre ++ (fds rs ++ post))
unfolding fill_cpus
fill_cpus_in_place nr_cpus i c [] pre [] post same at = refl
fill_cpus_in_place nr_cpus i c [] pre (o ∷ old) post same at = absurd (omega arith)
fill_cpus_in_place nr_cpus i c (r ∷ rs) pre [] post same at = absurd (omega arith)
fill_cpus_in_place nr_cpus i c (r ∷ rs) pre (o ∷ old) post same at =
    let rest =
      fill_cpus_in_place nr_cpus i (c + 1) rs (pre ++ (r.fd ∷ [])) old post (omega arith)
        (omega (arith, length-append pre (r.fd ∷ []))) in
    put (i * nr_cpus + c) at
    ∙ (ap (λ l. fill_cpus nr_cpus i (c + 1) rs l) (sym (append_assoc pre (r.fd ∷ []) (old ++ post)))
        ∙ (rest ∙ ap some (append_assoc pre (r.fd ∷ []) (fds rs ++ post))))
  where
    put :
        (n : ℕ)
        → length pre ≡ n
        → (elim (set_at n r.fd (pre ++ (o ∷ (old ++ post)))) [
          | none ↦ none
          | some pfd ↦ fill_cpus nr_cpus i (c + 1) rs pfd
        ])
          ≡ fill_cpus nr_cpus i (c + 1) rs (pre ++ (r.fd ∷ (old ++ post)))
    put n e = rw (← e, set_at-behind pre r.fd o (old ++ post)) refl

zeros-add : (m n : ℕ) → zeros (m + n) ≡ zeros m ++ zeros n
zeros-add zero n = ap zeros zero-add
  where
    zero-add : 0 + n ≡ n
    zero-add = omega arith
zeros-add (suc m) n = ap zeros suc-add ∙ ap (λ l. 0 ∷ l) (zeros-add m n)
  where
    suc-add : suc m + n ≡ suc (m + n)
    suc-add = omega arith

length-zeros : (n : ℕ) → length (zeros n) ≡ n
length-zeros zero = refl
length-zeros (suc n) = omega (arith, length-zeros n)

length-fds : (rs : List Ring) → length (fds rs) ≡ length rs
length-fds [] = refl
length-fds (r ∷ rs) = omega (arith, length-fds rs)

-- Both halves of the table, for an event with a ring on each CPU: no entry is written out of bounds, and
-- each ring's descriptor stands at its place.
pub fill_pfd-whole :
    (nr_cpus : ℕ) (ev : Both (List Ring))
    → length ev.miss ≡ nr_cpus
    → length ev.access ≡ nr_cpus
    → fill_pfd nr_cpus ev ≡ some (map (λ r. r.fd) ev.miss ++ map (λ r. r.fd) ev.access)
unfolding fill_pfd
fill_pfd-whole nr_cpus ev miss access =
    let first =
      fill_cpus_in_place nr_cpus 0 0 ev.miss [] (zeros nr_cpus) (zeros nr_cpus)
        (omega (arith, length-zeros nr_cpus)) (omega arith) in
    let second =
      fill_cpus_in_place nr_cpus 1 0 ev.access (fds ev.miss) (zeros nr_cpus) []
        (omega (arith, length-zeros nr_cpus)) (omega (arith, length-fds ev.miss)) in
    halves
    ∙ (rw (first) (
        ap (λ l. fill_cpus nr_cpus 1 0 ev.access (fds ev.miss ++ l))
          (sym (append-nil (zeros nr_cpus)))
        ∙ (second ∙ ap (λ l. some (fds ev.miss ++ l)) (append-nil (fds ev.access)))))
  where
    twice : 2 * nr_cpus ≡ nr_cpus + nr_cpus
    twice = omega arith

    halves :
        fill_pfd nr_cpus ev
        ≡ (elim (fill_cpus nr_cpus 0 0 ev.miss (zeros nr_cpus ++ zeros nr_cpus)) [
          | none ↦ none
          | some pfd ↦ fill_cpus nr_cpus 1 0 ev.access pfd
        ])
    halves = rw (ap zeros twice ∙ zeros-add nr_cpus nr_cpus, fill_pfd) refl
