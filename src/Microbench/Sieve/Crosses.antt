-- ===== src/Microbench/Sieve/Crosses.antt =====
-- What the loops of bench_sieve_run in
-- ysyx-workbench/am-kernels/benchmarks/microbench/src/sieve/sieve.c cross out.
use for_ysyx_self_store_by_h.Base.{
  ℕ, zero, suc, ◌+◌, ◌*◌, ◌<◌, ◌≤◌, ◌≡◌, ◌⊎◌, inl, inr, refl, ap, sym, ◌∙◌, arith, false, leb, ◌==◌,
  ==_iff, ==-refl, Bool-cases,
}
use native.Mathlib.Nat.{mul-le-mul_right, mul-le-mul, suc-mul, mul_comm, mul_assoc}
use for_ysyx_self_store_by_h.Microbench.Sieve.{get, clear, cross_out, visit, sieve}
use for_ysyx_self_store_by_h.Microbench.Sieve.BitArray.{get-clear}

-- A product of two factors, the first below a bound, and none of them 0 or 1.
pub record IsProduct (bound n : ℕ) : Type 0 where
  pub left : ℕ
  pub right : ℕ
  pub left_low : 2 ≤ left
  pub left_high : left < bound
  pub right_low : 2 ≤ right
  pub product : n ≡ left * right

module _ (size : ℕ) where
  -- The multiples of `i` from `j * i` on are crossed out, and no other numbers.
  pub record Crossed (i j : ℕ) (before after : ℕ → ℕ) : Type 0 where
    pub multiples : (k : ℕ) → j ≤ k → k * i ≤ size → get after (k * i) ≡ 0
    pub kept : (n : ℕ) → get before n ≡ 0 → get after n ≡ 0
    pub reason : (n : ℕ) → get after n ≡ 0 → (get before n ≡ 0) ⊎ ((k : ℕ) × (j ≤ k) × (n ≡ k * i))

  -- One multiple more, at the front.
  Crossed-first :
      (i j : ℕ) (primes after : ℕ → ℕ)
      → Crossed i (suc j) (clear primes (j * i)) after
      → Crossed i j primes after
  Crossed-first i j primes after rest = record {
    multiples = λ k jk ks. elim (Bool-cases (j == k)) [
      | inl e ↦
          let out : get (clear primes (j * i)) (j * i) ≡ 0 =
            get-clear primes (j * i) (j * i) ∙ rw (==-refl (j * i)) refl in
          rw (sym ((==_iff j k).0 e)) (rest.kept (j * i) out)
      | inr e ↦ rest.multiples k (ground arith) ks
    ];
    kept = λ n h. rest.kept n (get-clear primes (j * i) n ∙ ground (arith, h));
    reason = λ n h. elim (rest.reason n h) [
      | inl out ↦ elim (Bool-cases (j * i == n)) [
        | inl e ↦ inr (j, omega arith, sym ((==_iff (j * i) n).0 e))
        | inr e ↦ inl (sym (get-clear primes (j * i) n ∙ rw e refl) ∙ out)
      ]
      | inr (k, jk, e) ↦ inr (k, omega arith, e)
    ];
  }

  cross_out-Crossed :
      (fuel i j : ℕ) (primes : ℕ → ℕ)
      → 1 ≤ i
      → size < j * i + fuel
      → Crossed i j primes (cross_out size fuel i (j * i) primes)
  unfolding cross_out
  cross_out-Crossed zero i j primes hi h = record {
    multiples = λ k jk ks. absurd (omega (arith, mul-le-mul_right i jk));
    kept = λ n h. h;
    reason = λ n h. inl h;
  }
  cross_out-Crossed (suc fuel) i j primes hi h = elim (Bool-cases (leb (j * i) size)) [
    | inr past ↦ rw past (record {
      multiples = λ k jk ks. absurd (ground (arith, mul-le-mul_right i jk));
      kept = λ n h. h;
      reason = λ n h. inl h;
    })
    | inl within ↦
        let next : suc j * i ≡ j * i + i = suc-mul j i in
        let rest = cross_out-Crossed fuel i (suc j) (clear primes (j * i)) hi (omega arith) in
        rw within (rw (sym next) (Crossed-first i j primes _ rest))
  ]

  -- The numbers whose products with a factor below `i` are crossed out, and no others.
  pub record IsSieved (i : ℕ) (primes : ℕ → ℕ) : Type 0 where
    pub crossed : (n : ℕ) → n ≤ size → IsProduct i n → get primes n ≡ 0
    pub sound : (n : ℕ) → 2 ≤ n → n ≤ size → get primes n ≡ 0 → IsProduct i n

  IsProduct-suc : (i n : ℕ) → IsProduct i n → IsProduct (i + 1) n
  IsProduct-suc i n p = record {
    left = p.left;
    right = p.right;
    left_low = p.left_low;
    left_high = omega (arith, p.left_high);
    right_low = p.right_low;
    product = p.product;
  }

  -- A multiple of a product.
  IsProduct-multiple : (i m n : ℕ) → IsProduct i m → 2 ≤ n → IsProduct i (m * n)
  IsProduct-multiple i m n p h = record {
    left = p.left;
    right = p.right * n;
    left_low = p.left_low;
    left_high = p.left_high;
    right_low = omega (arith, mul-le-mul p.right_low h);
    product = ap (λ t. t * n) p.product ∙ mul_assoc p.left p.right n;
  }

  visit-IsSieved :
      (i : ℕ) (primes : ℕ → ℕ)
      → 2 ≤ i
      → i ≤ size
      → IsSieved i primes
      → IsSieved (i + 1) (visit size i primes)
  visit-IsSieved i primes hi his h = elim (Bool-cases (get primes i == 0)) [
    | inl out ↦
        let factors = h.sound i hi his ((==_iff _ 0).0 out) in
        rw out (record {
          crossed = λ n ns p. elim (Bool-cases (p.left == i)) [
            | inl e ↦
                let same : n ≡ i * p.right =
                  p.product ∙ ap (λ t. t * p.right) ((==_iff p.left i).0 e) in
                rw same (
                  h.crossed (i * p.right) (omega (arith, same))
                    (IsProduct-multiple i i p.right factors p.right_low))
            | inr e ↦ h.crossed n ns (below i n p e)
          ];
          sound = λ n nl ns z. IsProduct-suc i n (h.sound n nl ns z);
        })
    | inr set ↦
        let double : i + i ≡ 2 * i = omega arith in
        let c = cross_out-Crossed size i 2 primes (omega arith) (omega arith) in
        rw set (
          rw double (record {
            crossed = λ n ns p. elim (Bool-cases (p.left == i)) [
              | inl e ↦
                  let same : n ≡ p.right * i =
                    p.product
                    ∙ ap (λ t. t * p.right) ((==_iff p.left i).0 e)
                    ∙ mul_comm i p.right in
                  rw same (c.multiples p.right p.right_low (omega (arith, same)))
              | inr e ↦ c.kept n (h.crossed n ns (below i n p e))
            ];
            sound = λ n nl ns z. elim (c.reason n z) [
              | inl before ↦ IsProduct-suc i n (h.sound n nl ns before)
              | inr (k, kl, e) ↦ record {
                left = i;
                right = k;
                left_low = hi;
                left_high = omega arith;
                right_low = kl;
                product = e ∙ mul_comm k i;
              }
            ];
          }))
  ]
    where
      below : (i n : ℕ) (p : IsProduct (i + 1) n) → (p.left == i) ≡ false → IsProduct i n
      below i n p e = record {
        left = p.left;
        right = p.right;
        left_low = p.left_low;
        left_high = ground (arith, p.left_high);
        right_low = p.right_low;
        product = p.product;
      }

  -- Behind the loop, the square of the next number is out of range.
  pub sieve-IsSieved :
      (fuel i : ℕ) (primes : ℕ → ℕ)
      → 2 ≤ i
      → size < i + fuel
      → IsSieved i primes
      → (k : ℕ) × (size < k * k) × IsSieved k (sieve size fuel i primes)
  unfolding sieve
  sieve-IsSieved zero i primes hi h s = (i, omega (arith, mul-le-mul_right i hi), s)
  sieve-IsSieved (suc fuel) i primes hi h s = elim (Bool-cases (leb (i * i) size)) [
    | inr over ↦ rw over (i, ground arith, s)
    | inl within ↦
        let square : i * i ≤ size = ground arith in
        let small : i ≤ size = omega (arith, mul-le-mul_right i hi) in
        rw within (
          sieve-IsSieved fuel (i + 1) (visit size i primes) (omega arith) (omega arith)
            (visit-IsSieved i primes hi small s))
  ]
