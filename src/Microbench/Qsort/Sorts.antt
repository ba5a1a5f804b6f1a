-- ===== src/Microbench/Qsort/Sorts.antt =====
-- myqsort of ysyx-workbench/am-kernels/benchmarks/microbench/src/qsort/qsort.c sorts.
use for_ysyx_self_store_by_h.Base.{
  ℕ, zero, suc, ◌+◌, ◌≤◌, ◌<◌, ◌≡◌, inl, inr, ◌∙◌, arith, ltb, Bool-cases, ltb→lt, ◌==◌, ==_iff,
}
use for_ysyx_self_store_by_h.Microbench.Permutes.{
  Permutes, Permutes-refl, Permutes-trans, Permutes-widen, Permutes-all, Permutes-outside,
}
use for_ysyx_self_store_by_h.Microbench.Qsort.{rank, Split, split, myqsort}
use for_ysyx_self_store_by_h.Microbench.Qsort.Partition.{Divides, split-Divides}

-- The integers in [l .. r) ascend.
abbrev pub IsAscending : ℕ → ℕ → (ℕ → ℕ) → Type 0
IsAscending l r a = (i j : ℕ) → l ≤ i → i ≤ j → j < r → rank (a i) ≤ rank (a j)

-- `b` is `a` with the elements of [l .. r) sorted, and the others untouched.
pub record Sorts (l r : ℕ) (a b : ℕ → ℕ) : Type 0 where
  pub permutes : Permutes l r a b
  pub ascending : IsAscending l r b

-- The three parts, the left one sorted first.
module _ {l r : ℕ} {a : ℕ → ℕ} (s : Split) (d : Divides l r a s) {b c : ℕ → ℕ}
    (left : Sorts l s.pivot s.a b) (right : Sorts (s.pivot + 1) r b c) where
  left_kept : (i : ℕ) → i < s.pivot → c i ≡ b i
  left_kept i h = Permutes-outside right.permutes i (inl (omega arith))

  pivot_kept : c s.pivot ≡ s.a s.pivot
  pivot_kept =
      Permutes-outside right.permutes s.pivot (inl (omega arith))
      ∙ Permutes-outside left.permutes s.pivot (inr (omega arith))

  left_below : (i : ℕ) → l ≤ i → i < s.pivot → rank (c i) ≤ rank (s.a s.pivot)
  left_below i li ip =
      rw (left_kept i ip)
        (Permutes-all left.permutes (λ x. rank x ≤ rank (s.a s.pivot)) d.low i li ip)

  right_above : (i : ℕ) → s.pivot < i → i < r → rank (s.a s.pivot) ≤ rank (c i)
  right_above i pi ir =
      Permutes-all right.permutes (λ x. rank (s.a s.pivot) ≤ rank x)
        (λ k pk kr.
          rw (Permutes-outside left.permutes k (inr (omega arith))) (d.high k (omega arith) kr))
        i (omega arith) ir

  up_to_pivot : (i : ℕ) → l ≤ i → i ≤ s.pivot → rank (c i) ≤ rank (s.a s.pivot)
  up_to_pivot i li ip = elim (Bool-cases (i == s.pivot)) [
    | inl e ↦ rw ((==_iff i s.pivot).0 e) (rw pivot_kept (omega arith))
    | inr less ↦ let ip' : i < s.pivot = ground arith in left_below i li ip'
  ]

  from_pivot : (i : ℕ) → s.pivot ≤ i → i < r → rank (s.a s.pivot) ≤ rank (c i)
  from_pivot i pi ir = elim (Bool-cases (i == s.pivot)) [
    | inl e ↦ rw ((==_iff i s.pivot).0 e) (rw pivot_kept (omega arith))
    | inr more ↦ let pi' : s.pivot < i = ground arith in right_above i pi' ir
  ]

  joined-IsAscending : IsAscending l r c
  joined-IsAscending i j li ij jr = elim (Bool-cases (ltb j s.pivot)) [
    | inl before ↦
        let jp = ltb→lt j s.pivot before in
        rw (left_kept i (omega arith)) (rw (left_kept j jp) (left.ascending i j li ij jp))
    | inr not_before ↦ elim (Bool-cases (ltb s.pivot i)) [
      | inl behind ↦ right.ascending i j (omega (arith, ltb→lt s.pivot i behind)) ij jr
      | inr not_behind ↦
          omega (arith, up_to_pivot i li (ground arith), from_pivot j (ground arith) jr)
    ]
  ]

  joined : Sorts l r a c
  joined = record {
    permutes = Permutes-trans d.permutes (
        Permutes-trans (Permutes-widen (omega arith) (omega (arith, d.to)) left.permutes)
          (Permutes-widen (omega (arith, d.from)) (omega arith) right.permutes));
    ascending = joined-IsAscending;
  }

-- With fuel for the elements of [l .. r), myqsort sorts them, as the integers that the patterns stand
-- for, and touches no other.
pub myqsort-Sorts :
    (fuel : ℕ) (a : ℕ → ℕ) (l r : ℕ) → r ≤ l + fuel → Sorts l r a (myqsort fuel a l r)
unfolding myqsort
myqsort-Sorts zero a l r h = record {
  permutes = Permutes-refl l r a;
  ascending = λ i j li ij jr. absurd (omega arith);
}
myqsort-Sorts (suc fuel) a l r h = elim (Bool-cases (ltb l r)) [
  | inr none ↦
      rw none (record {
        permutes = Permutes-refl l r a;
        ascending = λ i j li ij jr. absurd (ground arith);
      })
  | inl some ↦
      let s = split a l r in
      let d = split-Divides a l r (ltb→lt l r some) in
      rw some (
        joined s d (myqsort-Sorts fuel s.a l s.pivot (omega (arith, d.to)))
          (myqsort-Sorts fuel (myqsort fuel s.a l s.pivot) (s.pivot + 1) r (omega (arith, d.from))))
]
