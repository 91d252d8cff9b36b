-- ===== src/Gen/Apply/Counts.antt =====
-- How the counts of the parts of a walk add up.
use filtergen.Base.{ℕ, zero, suc, ◌+◌, ◌≡◌, ◌≢◌, refl, ap, sym, arith, fun_ext}
use filtergen.Gen.Entry.{
  FilterEnt, Count, failed, aborted, rules, Applied, refused, crashes, filled, Run, Callback,
}
use filtergen.Gen.Apply.{with_ent, then_rest, add_counts, unless_result}

-- A back end that writes at least one rule for each entry, or fails.
abbrev pub IsProductive : {S : Type 0} → Callback S → Type 0
IsProductive {S} cb = (e : FilterEnt) (s : S) → (cb.rule e s).1 ≢ rules 0

module _ {S : Type 0} where
  pub add_zero : (x : S × Count) → add_counts 0 x ≡ x
  add_zero (s, failed) = refl
  add_zero (s, aborted) = refl
  add_zero (s, rules n) = ap (λ (m : ℕ). (s, rules m)) (omega arith)

  pub then_nothing : (x : S × Count) → then_rest x (λ s. (s, rules 0)) ≡ x
  then_nothing (s, failed) = refl
  then_nothing (s, aborted) = refl
  then_nothing (s, rules n) = ap (λ (m : ℕ). (s, rules m)) (omega arith)

  pub add_counts_assoc :
      (n m : ℕ) (x : S × Count) → add_counts n (add_counts m x) ≡ add_counts (n + m) x
  add_counts_assoc n m (s, failed) = refl
  add_counts_assoc n m (s, aborted) = refl
  add_counts_assoc n m (s, rules k) = ap (λ (i : ℕ). (s, rules i)) (omega arith)

  pub add_counts-then :
      (n : ℕ) (x : S × Count) (k : Run S)
      → then_rest (add_counts n x) k ≡ add_counts n (then_rest x k)
  add_counts-then n (s, failed) k = refl
  add_counts-then n (s, aborted) k = refl
  add_counts-then n (s, rules m) k = sym (add_counts_assoc n m (k s))

  pub then_assoc :
      (x : S × Count) (j k : Run S)
      → then_rest (then_rest x j) k ≡ then_rest x (λ s. then_rest (j s) k)
  then_assoc (s, failed) j k = refl
  then_assoc (s, aborted) j k = refl
  then_assoc (s, rules n) j k = add_counts-then n (j s) k

  pub then_congr :
      (x : S × Count) (j k : Run S) → ((s : S) → j s ≡ k s) → then_rest x j ≡ then_rest x k
  then_congr x j k h = ap (then_rest x) (fun_ext h)

  pub with_congr :
      (o : Applied) (j k : FilterEnt → Run S) (s : S)
      → ((e : FilterEnt) → j e s ≡ k e s)
      → with_ent o j s ≡ with_ent o k s
  with_congr refused j k s h = refl
  with_congr crashes j k s h = refl
  with_congr (filled e) j k s h = h e

  pub add_ne_zero : (n : ℕ) (x : S × Count) → rules n ≢ rules 0 → (add_counts n x).1 ≢ rules 0
  add_ne_zero n (s, failed) h = cc
  add_ne_zero n (s, aborted) h = cc
  add_ne_zero zero (s, rules m) h = absurd (h refl)
  add_ne_zero (suc n) (s, rules m) h = λ e. ground arith

  pub then_ne_zero : (x : S × Count) (k : Run S) → x.1 ≢ rules 0 → (then_rest x k).1 ≢ rules 0
  then_ne_zero (s, failed) k h = h
  then_ne_zero (s, aborted) k h = h
  then_ne_zero (s, rules n) k h = add_ne_zero n (k s) h

  pub result_stops : (x : S × Count) (k : Run S) → x.1 ≢ rules 0 → unless_result x k ≡ x
  result_stops (s, failed) k h = refl
  result_stops (s, aborted) k h = refl
  result_stops (s, rules zero) k h = absurd (h refl)
  result_stops (s, rules (suc n)) k h = refl
