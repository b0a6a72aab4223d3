-- ===== src/MergeSort/Ranges.antt =====
-- Ranges of an array: from `l`, `n` elements.
use cse130_git.Prelude.{
  ℕ, zero, suc, ◌+◌, ◌-◌, ◌≤◌, ◌<◌, ◌≡◌, refl, sym, ◌∙◌, ◌⊎◌, inl, inr, Bool, if◌then◌else◌, arith,
}

module _ {A : Type 0} where
  -- How many elements of the range pass the test.
  abbrev pub count_range : (A → Bool) → (ℕ → A) → ℕ → ℕ → ℕ
  count_range p a l zero = 0
  count_range p a l (suc n) = (if p (a l) then 1 else 0) + count_range p a (l + 1) n

  pub count_range-append :
      (p : A → Bool) (a : ℕ → A) (l m n : ℕ)
      → count_range p a l (m + n) ≡ count_range p a l m + count_range p a (l + m) n
  count_range-append p a l zero n =
      let e : 0 + n ≡ n = omega arith in let f : l + 0 ≡ l = omega arith in rw (e, f) (omega arith)
  count_range-append p a l (suc m) n =
      let e : suc m + n ≡ suc (m + n) = omega arith in
      let f : l + suc m ≡ l + 1 + m = omega arith in
      rw (e, f) (omega (arith, count_range-append p a (l + 1) m n))

  pub count_range-cong :
      (p : A → Bool) (a b : ℕ → A) (l n : ℕ)
      → ((i : ℕ) → l ≤ i → i < l + n → a i ≡ b i)
      → count_range p a l n ≡ count_range p b l n
  count_range-cong p a b l zero h = refl
  count_range-cong p a b l (suc n) h = ground (
    arith,
    h l (omega arith) (omega arith),
    count_range-cong p a b (l + 1) n (λ i x y. h i (omega (arith, x)) (omega (arith, y))),
  )

  -- The range holds the same elements, each as often, and outside it nothing changes.
  pub record Permutes (a b : ℕ → A) (l n : ℕ) : Type 0 where
    pub counts : (p : A → Bool) → count_range p b l n ≡ count_range p a l n
    pub outside : (i : ℕ) → (i < l) ⊎ (l + n ≤ i) → b i ≡ a i

  pub same-Permutes : (a : ℕ → A) (l n : ℕ) → Permutes a a l n
  same-Permutes a l n = record { counts = λ p. refl; outside = λ i h. refl }

  pub trans-Permutes :
      (a b c : ℕ → A) (l n : ℕ) → Permutes a b l n → Permutes b c l n → Permutes a c l n
  trans-Permutes a b c l n f g = record {
    counts = λ p. g.counts p ∙ f.counts p;
    outside = λ i h. g.outside i h ∙ f.outside i h;
  }

  pub wider-Permutes :
      (a b : ℕ → A) (l u n v : ℕ) → Permutes a b (l + u) n → Permutes a b l (u + n + v)
  wider-Permutes a b l u n v f = record {
    counts = λ p. omega (
      arith,
      count_range-append p a l (u + n) v,
      count_range-append p b l (u + n) v,
      count_range-append p a l u n,
      count_range-append p b l u n,
      f.counts p,
      count_range-cong p b a l u (λ i x y. f.outside i (inl y)),
      count_range-cong p b a (l + (u + n)) v (λ i x y. f.outside i (inr (omega (arith, x)))),
    );
    outside = λ i h.
        f.outside i (elim h [ inl x ↦ inl (omega (arith, x)) | inr x ↦ inr (omega (arith, x)) ]);
  }

  -- A range within another one.
  pub within-Permutes :
      (a b : ℕ → A) (l n l' n' : ℕ)
      → l ≤ l'
      → l' + n' ≤ l + n
      → Permutes a b l' n'
      → Permutes a b l n
  within-Permutes a b l n l' n' x y f =
      let e : l + (l' - l) ≡ l' = omega (arith, x) in
      let g : l' - l + n' + (l + n - (l' + n')) ≡ n = omega (arith, x, y) in
      rw (sym g) (wider-Permutes a b l (l' - l) n' (l + n - (l' + n')) (rw e f))
