-- ===== src/Microbench/Qsort/Prepared.antt =====
-- The benchmark on the array that bench_qsort_prepare fills.
use for_ysyx_self_store_by_h.Base.{
  ℕ, zero, suc, ◌+◌, ◌*◌, ◌^◌, ◌≤◌, ◌<◌, ◌≡◌, refl, arith, inl, inr, some, ◌==◌, Bool-cases, update,
  bit_or, shifted-bit_or,
}
use for_ysyx_self_store_by_h.Microbench.{Memory, round_up, bench_srand, bench_rand}
use for_ysyx_self_store_by_h.Microbench.Heap.{IsHeap, allocated, bench_alloc-allocated}
use for_ysyx_self_store_by_h.Microbench.Permutes.{Permutes, Permutes-all}
use for_ysyx_self_store_by_h.Microbench.Qsort.{rank, fill, bench_qsort_prepare, bench_qsort_run}
use for_ysyx_self_store_by_h.Microbench.Qsort.Sorts.{myqsort-Sorts}

bench_rand-lt : (seed : ℕ) → (bench_rand seed).0 < 2 ^ 15
unfolding bench_rand
bench_rand-lt seed = omega arith

element-lt : (x y : ℕ) → x < 2 ^ 15 → y < 2 ^ 15 → bit_or (x * 2 ^ 16) y < 2 ^ 31
element-lt x y hx hy = rw (shifted-bit_or 16 y x (omega arith)) (omega arith)

fill-lt :
    (n i seed : ℕ) (a : ℕ → ℕ)
    → ((k : ℕ) → k < i → a k < 2 ^ 31)
    → (k : ℕ) → k < i + n
    → fill n i seed a k < 2 ^ 31
unfolding fill
fill-lt zero i seed a h k ki = h k (omega arith)
fill-lt (suc n) i seed a h k ki =
    let x = (bench_rand seed).0 in
    let seed1 = (bench_rand seed).1 in
    let y = (bench_rand seed1).0 in
    let e = bit_or (x * 2 ^ 16) y in
    fill-lt n (i + 1) (bench_rand seed1).1 (update a i e)
      (λ m mi. elim (Bool-cases (i == m)) [
        | inl same ↦ rw same (element-lt x y (bench_rand-lt seed) (bench_rand-lt seed1))
        | inr less ↦ let mi' : m < i = ground arith in rw less (h m mi')
      ])
      k (omega arith)

rank-le : (x y : ℕ) → x < 2 ^ 31 → y < 2 ^ 31 → rank x ≤ rank y → x ≤ y
unfolding rank
rank-le x y hx hy h = omega arith

-- The array ascends, as numbers, and holds the elements of the other.
pub record IsSorted (size : ℕ) (a b : ℕ → ℕ) : Type 0 where
  pub permutes : Permutes 0 size a b
  pub ascending : (i j : ℕ) → i ≤ j → j < size → b i ≤ b j

-- On a heap with room for the array, bench_qsort_prepare succeeds, and bench_qsort_run sorts what it
-- has filled in, which are numbers that are not negative.
pub bench_qsort-IsSorted :
    (size : ℕ) (m : Memory)
    → IsHeap m
    → m.hbrk + round_up (size * 4) < m.heap_end
    → m.hbrk + round_up (size * 4) ≤ m.heap_start + m.mlim
    → (a : ℕ → ℕ) × (m' : Memory) × (bench_qsort_prepare size m ≡ some (a, m'))
      × ((i : ℕ) → i < size → a i < 2 ^ 31)
      × IsSorted size a (bench_qsort_run size a)
unfolding bench_qsort_prepare bench_qsort_run
bench_qsort-IsSorted size m h room limit =
    let a = fill size 0 (bench_srand 1) (λ i. 0) in
    let small : (i : ℕ) → i < size → a i < 2 ^ 31 =
      λ i hi. fill-lt size 0 (bench_srand 1) (λ k. 0) (λ k hk. omega arith) i (omega arith) in
    let sorts = myqsort-Sorts size a 0 size (omega arith) in
    let still_small = Permutes-all sorts.permutes (λ x. x < 2 ^ 31) (λ i li ir. small i ir) in
    (
      a,
      allocated (size * 4) m,
      rw (bench_alloc-allocated (size * 4) m h room limit, bench_qsort_prepare) refl,
      small,
      record {
        permutes = sorts.permutes;
        ascending = λ i j ij js.
            rank-le _ _ (still_small i (omega arith) (omega arith)) (still_small j (omega arith) js)
              (sorts.ascending i j (omega arith) ij js);
      },
    )
