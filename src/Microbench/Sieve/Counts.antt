-- ===== src/Microbench/Sieve/Counts.antt =====
-- bench_sieve_run of ysyx-workbench/am-kernels/benchmarks/microbench/src/sieve/sieve.c counts the
-- primes.
use for_ysyx_self_store_by_h.Base.{
  ℕ, zero, suc, ◌+◌, ◌-◌, ◌*◌, ◌/◌, ◌%◌, ◌^◌, ◌<◌, ◌≤◌, ◌≡◌, ◌≢◌, inl, inr, refl, ap, sym, ◌∙◌,
  arith, Bool, true, false, if◌then◌else◌, leb, ltb, ◌==◌, ==_iff, Bool-cases, not, ◌&&◌, ◌||◌,
  some, bits, passes_below, passes_below-lt,
}
use native.Mathlib.Nat.{mul-le-mul, mul-le-mul_left, mul_comm, mul-mod_left, div-add-mod}
use for_ysyx_self_store_by_h.Microbench.{Memory, round_up}
use for_ysyx_self_store_by_h.Microbench.Heap.{IsHeap, allocated, bench_alloc-allocated}
use for_ysyx_self_store_by_h.Microbench.Sieve.{
  get, all_set, sieve, count, bench_sieve_prepare, bench_sieve_run,
}
use for_ysyx_self_store_by_h.Microbench.Sieve.BitArray.{get-lt}
use for_ysyx_self_store_by_h.Microbench.Sieve.Crosses.{IsSieved, sieve-IsSieved}

-- No product of two numbers from 2 on.
pub record IsPrime (n : ℕ) : Type 0 where
  pub low : 2 ≤ n
  pub indivisible : (l r : ℕ) → 2 ≤ l → 2 ≤ r → n ≢ l * r

-- Trial division.
unfoldable pub is_prime : ℕ → Bool
is_prime n = leb 2 n && passes_below (λ d. ltb d 2 || not (n % d == 0)) n

-- The primes below a bound.
unfoldable pub primes_below : ℕ → ℕ
primes_below zero = 0
primes_below (suc n) = primes_below n + (if is_prime n then 1 else 0)

passes_below-all :
    (test : ℕ → Bool) (n : ℕ) → ((x : ℕ) → x < n → test x ≡ true) → passes_below test n ≡ true
unfolding passes_below
passes_below-all test zero h = refl
passes_below-all test (suc n) h =
    rw (h n (omega arith)) (passes_below-all test n (λ x l. h x (omega arith)))

is_prime-IsPrime : (n : ℕ) → IsPrime n → is_prime n ≡ true
unfolding is_prime
is_prime-IsPrime n p =
    let low : leb 2 n ≡ true = ground (arith, p.low) in
    rw low (passes_below-all (λ d. ltb d 2 || not (n % d == 0)) n (λ d dn. passes d dn))
  where
    two_at_least : (d q : ℕ) → d < n → n ≡ d * q → 2 ≤ q
    two_at_least d zero dn e = absurd (omega arith)
    two_at_least d (suc zero) dn e = absurd (omega arith)
    two_at_least d (suc (suc q)) dn e = omega arith

    passes : (d : ℕ) → d < n → (ltb d 2 || not (n % d == 0)) ≡ true
    passes d dn = elim (Bool-cases (ltb d 2)) [
      | inl e ↦ rw e refl
      | inr e ↦ elim (Bool-cases (n % d == 0)) [
        | inr f ↦ rw e (rw f refl)
        | inl f ↦
            let e' : 2 ≤ d = ground arith in
            let whole : n ≡ d * (n / d) = omega (arith, div-add-mod n d, (==_iff (n % d) 0).0 f) in
            absurd (p.indivisible d (n / d) e' (two_at_least d (n / d) dn whole) whole)
      ]
    ]

IsPrime-is_prime : (n : ℕ) → is_prime n ≡ true → IsPrime n
unfolding is_prime
IsPrime-is_prime n h = record {
  low = ground (arith, h);
  indivisible = λ l r hl hr e.
      let below : l < n = omega (arith, e, mul-le-mul_left l hr) in
      let tried =
        passes_below-lt (λ d. ltb d 2 || not (n % d == 0)) n l (ground (arith, h)) below in
      let divides : n % l ≡ 0 = ap (λ t. t % l) e ∙ mul-mod_left' l r in
      ground (arith, tried, divides);
}
  where
    mul-mod_left' : (l r : ℕ) → l * r % l ≡ 0
    mul-mod_left' l r = ap (λ t. t % l) (mul_comm l r) ∙ mul-mod_left r l

module _ (size : ℕ) where
  -- Behind the loops, the bits from 2 to `size` are those of the primes.
  IsSieved-prime :
      (k : ℕ) (primes : ℕ → ℕ)
      → size < k * k
      → IsSieved size k primes
      → (n : ℕ) → 2 ≤ n
      → n ≤ size
      → get primes n ≡ (if is_prime n then 1 else 0)
  IsSieved-prime k primes square s n low high = elim (Bool-cases (is_prime n)) [
    | inl e ↦
        let prime = IsPrime-is_prime n e in
        rw e (elim (Bool-cases (get primes n == 0)) [
          | inl out ↦
              let p = s.sound n low high ((==_iff _ 0).0 out) in
              absurd (prime.indivisible p.left p.right p.left_low p.right_low p.product)
          | inr set ↦ ground (arith, get-lt primes n, set)
        ])
    | inr e ↦ rw e (elim (Bool-cases (get primes n == 0)) [
      | inl out ↦ (==_iff _ 0).0 out
      | inr set ↦ absurd (
          let prime : IsPrime n = record {
            low = low;
            indivisible = λ l r hl hr f. still_set k primes square s n high set l r hl hr f;
          } in
          let e' : false ≡ true = sym e ∙ is_prime-IsPrime n prime in cc)
    ])
  ]
    where
      factor :
          (k : ℕ) (primes : ℕ → ℕ)
          → IsSieved size k primes
          → (n : ℕ) → n ≤ size
          → (get primes n == 0) ≡ false
          → (l r : ℕ) → 2 ≤ l
          → 2 ≤ r
          → l < k
          → n ≢ l * r
      factor k primes s n high set l r hl hr lk f =
          let out : get primes n ≡ 0 = s.crossed n high (record {
            left = l;
            right = r;
            left_low = hl;
            left_high = lk;
            right_low = hr;
            product = f;
          }) in
          ground (arith, out, set)

      still_set :
          (k : ℕ) (primes : ℕ → ℕ)
          → size < k * k
          → IsSieved size k primes
          → (n : ℕ) → n ≤ size
          → (get primes n == 0) ≡ false
          → (l r : ℕ) → 2 ≤ l
          → 2 ≤ r
          → n ≢ l * r
      still_set k primes square s n high set l r hl hr f = elim (Bool-cases (ltb l k)) [
        | inl lk ↦ factor k primes s n high set l r hl hr (ground arith) f
        | inr lk ↦ elim (Bool-cases (ltb r k)) [
          | inl rk ↦ factor k primes s n high set r l hr hl (ground arith) (f ∙ mul_comm l r)
          | inr rk ↦
              let kl : k ≤ l = ground arith in
              let kr : k ≤ r = ground arith in omega (arith, f, mul-le-mul kl kr)
        ]
      ]

primes_below-next : (n : ℕ) → primes_below (n + 1) ≡ primes_below n + (if is_prime n then 1 else 0)
unfolding primes_below
primes_below-next n = let e : n + 1 ≡ suc n = omega arith in rw e refl

-- The last loop.
count-primes :
    (n i : ℕ) (primes : ℕ → ℕ) (ans : ℕ)
    → ((m : ℕ) → i ≤ m → m < i + n → get primes m ≡ (if is_prime m then 1 else 0))
    → count n i primes ans + primes_below i ≡ ans + primes_below (i + n)
unfolding count
count-primes zero i primes ans h = ap (λ (t : ℕ). ans + primes_below t) (omega arith)
count-primes (suc n) i primes ans h =
    let ans' : ℕ = if get primes i == 0 then ans else ans + 1 in
    let rest = count-primes n (i + 1) primes ans' (λ m im mn. h m (omega arith) (omega arith)) in
    let same : i + suc n ≡ i + 1 + n = omega arith in
    rw same (ground (arith, rest, primes_below-next i, h i (omega arith) (omega arith)))

-- What bench_sieve_prepare stores.
abbrev prepared : ℕ → ℕ → ℕ
prepared size i = if leb i (size / 32) then 2 ^ 32 - 1 else 0

ones_table : passes_below (λ k. bits (2 ^ 32 - 1) k 1 == 1) 32 ≡ true
unfolding passes_below
ones_table = refl

prepared-set : (size n : ℕ) → n ≤ size → get (prepared size) n ≡ 1
unfolding get
prepared-set size n h =
    let within : leb (n / 32) (size / 32) ≡ true = ground arith in
    rw within (
      (==_iff _ 1).0
        (passes_below-lt (λ k. bits (2 ^ 32 - 1) k 1 == 1) 32 (n % 32) ones_table (omega arith)))

prepared-all_set : (size n i : ℕ) → i + n ≤ size + 1 → all_set n i (prepared size) ≡ true
unfolding all_set
prepared-all_set size zero i h = refl
prepared-all_set size (suc n) i h =
    rw (prepared-set size i (omega arith)) (prepared-all_set size n (i + 1) (omega arith))

prepared-IsSieved : (size : ℕ) → IsSieved size 2 (prepared size)
prepared-IsSieved size = record {
  crossed = λ n ns p. absurd (omega (arith, p.left_low, p.left_high));
  sound = λ n low high e. absurd (omega (arith, e, prepared-set size n high));
}

primes_below-two : (size : ℕ) → primes_below (2 + (size - 1)) ≡ primes_below (size + 1)
unfolding primes_below is_prime passes_below
primes_below-two zero = refl
primes_below-two (suc size) = ap (λ t. primes_below t) (omega arith)

primes_below_start : primes_below 2 ≡ 0
unfolding primes_below is_prime passes_below
primes_below_start = refl

-- On a heap with room for the array, bench_sieve_prepare succeeds; and then bench_sieve_run, whatever
-- ans holds, leaves the bits from 2 to N set for the primes alone, by trial division, and their number
-- in ans.
pub bench_sieve-primes :
    (size : ℕ) (m : Memory) (ans : ℕ)
    → IsHeap m
    → m.hbrk + round_up (size / 8 + 128) < m.heap_end
    → m.hbrk + round_up (size / 8 + 128) ≤ m.heap_start + m.mlim
    → (primes : ℕ → ℕ) × (after : ℕ → ℕ) × (m' : Memory) × (bench_sieve_prepare size m
        ≡ some (primes, m'))
      × (bench_sieve_run size primes ans ≡ (after, primes_below (size + 1)))
      × ((n : ℕ) → 2 ≤ n → n ≤ size → get after n ≡ (if is_prime n then 1 else 0))
unfolding bench_sieve_run bench_sieve_prepare
bench_sieve-primes size m ans h room limit =
    let after = sieve size size 2 (prepared size) in
    let (k, square, sieved) =
      sieve-IsSieved size size 2 (prepared size) (omega arith) (omega arith)
        (prepared-IsSieved size) in
    let marks = IsSieved-prime size k after square sieved in
    let counted = count-primes (size - 1) 2 after 0 (λ n low high. marks n low (omega arith)) in
    let all = prepared-all_set size size 1 (omega arith) in
    let number : count (size - 1) 2 after 0 ≡ primes_below (size + 1) =
      omega (arith, counted, primes_below-two size, primes_below_start) in
    (
      prepared size,
      after,
      allocated (size / 8 + 128) m,
      rw (bench_alloc-allocated (size / 8 + 128) m h room limit, bench_sieve_prepare) refl,
      rw all (ap (λ (t : ℕ). (after, t)) number),
      marks,
    )
