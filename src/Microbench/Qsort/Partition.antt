-- ===== src/Microbench/Qsort/Partition.antt =====
-- What the loop of myqsort in ysyx-workbench/am-kernels/benchmarks/microbench/src/qsort/qsort.c makes
-- of its part of the array.
use for_ysyx_self_store_by_h.Base.{
  ℕ, zero, suc, ◌+◌, ◌-◌, ◌≤◌, ◌<◌, ◌≡◌, inl, inr, refl, sym, ◌∙◌, subst, arith, ◌==◌, Bool-cases,
  ==_iff, ltb→lt, ◌≢◌,
}
use for_ysyx_self_store_by_h.Microbench.Permutes.{
  swap, swap-left, swap-right, swap-other, Permutes, Permutes-refl, Permutes-trans, swap-Permutes,
}
use for_ysyx_self_store_by_h.Microbench.Qsort.{rank, int_lt, Split, visit, partition, split}

-- Before the place `j`: the elements up to `pivot` are below the first one, and the others are not.
record IsSplit (l r : ℕ) (before : ℕ → ℕ) (j : ℕ) (s : Split) : Type 0 where
  from : l ≤ s.pivot
  to : s.pivot < j
  first : s.a l ≡ before l
  low : (i : ℕ) → l < i → i ≤ s.pivot → rank (s.a i) < rank (before l)
  high : (i : ℕ) → s.pivot < i → i < j → rank (before l) ≤ rank (s.a i)
  permutes : Permutes l r before s.a

visit-IsSplit :
    (l r : ℕ) (before : ℕ → ℕ) (j : ℕ) (s : Split)
    → l < j
    → j < r
    → IsSplit l r before j s
    → IsSplit l r before (j + 1) (visit (before l) j s)
unfolding visit
visit-IsSplit l r before j s lj jr h = elim (Bool-cases (int_lt (s.a j) (before l))) [
  | inl e ↦ rw e (record {
    from = omega (arith, h.from);
    to = omega (arith, h.to);
    first = other l (omega (arith, h.from)) (omega arith) ∙ h.first;
    low = λ i li ip. elim (Bool-cases (s.pivot + 1 == i)) [
      | inl same ↦
          let at : swap s.a (s.pivot + 1) j i ≡ s.a j =
            rw (sym ((==_iff _ i).0 same)) (swap-left s.a (s.pivot + 1) j) in
          rw at (ltb→lt _ _ e)
      | inr less ↦
          let ip' : i ≤ s.pivot = ground arith in
          rw (other i (omega arith) (omega (arith, h.to))) (h.low i li ip')
    ];
    high = λ i pi ij. elim (Bool-cases (j == i)) [
      | inl same ↦
          let ji : j ≡ i = (==_iff j i).0 same in
          let at : swap s.a (s.pivot + 1) j i ≡ s.a (s.pivot + 1) =
            rw (sym ji) (swap-right s.a (s.pivot + 1) j) in
          rw at (h.high (s.pivot + 1) (omega arith) (omega arith))
      | inr less ↦
          let ij' : i < j = ground arith in
          rw (other i (omega arith) (omega arith)) (h.high i (omega arith) ij')
    ];
    permutes = Permutes-trans h.permutes (
        swap-Permutes l r s.a (s.pivot + 1) j (omega (arith, h.from)) (omega (arith, h.to))
          (omega arith) jr);
  })
  | inr e ↦ rw e (record {
    from = h.from;
    to = omega (arith, h.to);
    first = h.first;
    low = h.low;
    high = λ i pi ij. elim (Bool-cases (j == i)) [
      | inl same ↦ rw (sym ((==_iff j i).0 same)) (ground (arith, e))
      | inr less ↦ h.high i pi (ground arith)
    ];
    permutes = h.permutes;
  })
]
  where
    other : (i : ℕ) → (s.pivot + 1) ≢ i → j ≢ i → swap s.a (s.pivot + 1) j i ≡ s.a i
    other i h h' = swap-other s.a (s.pivot + 1) j i h h'

partition-IsSplit :
    (l r : ℕ) (before : ℕ → ℕ) (n j : ℕ) (s : Split)
    → l < j
    → j + n ≡ r
    → IsSplit l r before j s
    → IsSplit l r before r (partition (before l) n j s)
unfolding partition
partition-IsSplit l r before zero j s lj e h = subst (λ k. IsSplit l r before k s) (omega arith) h
partition-IsSplit l r before (suc n) j s lj e h =
    partition-IsSplit l r before n (j + 1) (visit (before l) j s) (omega arith) (omega arith)
      (visit-IsSplit l r before j s lj (omega arith) h)

-- Behind `split`: the elements before the pivot are below it, and those behind it are not.
pub record Divides (l r : ℕ) (before : ℕ → ℕ) (s : Split) : Type 0 where
  pub from : l ≤ s.pivot
  pub to : s.pivot < r
  pub low : (i : ℕ) → l ≤ i → i < s.pivot → rank (s.a i) ≤ rank (s.a s.pivot)
  pub high : (i : ℕ) → s.pivot < i → i < r → rank (s.a s.pivot) ≤ rank (s.a i)
  pub permutes : Permutes l r before s.a

IsSplit-Divides :
    (l r : ℕ) (before : ℕ → ℕ) (s : Split)
    → IsSplit l r before r s
    → Divides l r before (record { a = swap s.a s.pivot l; pivot = s.pivot })
IsSplit-Divides l r before s h = record {
  from = h.from;
  to = h.to;
  low = λ i li ip. rw pivot_at (low i li ip);
  high = λ i pi ir.
      rw pivot_at
        (rw (swap-other s.a s.pivot l i (omega arith) (omega (arith, h.from))) (h.high i pi ir));
  permutes =
      Permutes-trans h.permutes
        (swap-Permutes l r s.a s.pivot l h.from h.to (omega arith) (omega (arith, h.from, h.to)));
}
  where
    pivot_at : swap s.a s.pivot l s.pivot ≡ before l
    pivot_at = swap-left s.a s.pivot l ∙ h.first

    low : (i : ℕ) → l ≤ i → i < s.pivot → rank (swap s.a s.pivot l i) ≤ rank (before l)
    low i li ip = elim (Bool-cases (l == i)) [
      | inl same ↦
          let at : swap s.a s.pivot l i ≡ s.a s.pivot =
            rw (sym ((==_iff l i).0 same)) (swap-right s.a s.pivot l) in
          rw at (omega (arith, h.low s.pivot (omega arith) (omega arith)))
      | inr more ↦
          let li' : l < i = ground arith in
          rw (swap-other s.a s.pivot l i (omega arith) (omega arith))
            (omega (arith, h.low i li' (omega arith)))
    ]

pub split-Divides : (a : ℕ → ℕ) (l r : ℕ) → l < r → Divides l r a (split a l r)
unfolding split
split-Divides a l r h =
    let start : IsSplit l r a (l + 1) (record { a = a; pivot = l }) = record {
      from = omega arith;
      to = omega arith;
      first = refl;
      low = λ i li ip. absurd (omega arith);
      high = λ i pi ij. absurd (omega arith);
      permutes = Permutes-refl l r a;
    } in
    IsSplit-Divides l r a _ (
      partition-IsSplit l r a (r - (l + 1)) (l + 1) (record { a = a; pivot = l }) (omega arith)
        (omega arith) start)
