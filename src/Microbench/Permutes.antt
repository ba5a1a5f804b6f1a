-- ===== src/Microbench/Permutes.antt =====
-- Permutations of a part of an array.
use for_ysyx_self_store_by_h.Base.{
  ℕ, ◌≤◌, ◌<◌, ◌≡◌, ◌⊎◌, inl, inr, refl, ap, sym, ◌∙◌, subst, arith, if◌then◌else◌, ◌==◌, update,
  ◌≢◌, Bool-cases, ==_iff, ==-refl,
}

-- `swap(&a[i], &a[j])`
unfoldable pub swap : (ℕ → ℕ) → ℕ → ℕ → ℕ → ℕ
swap a i j = update (update a i (a j)) j (a i)

-- `b` holds the elements of `a`, which have changed places in [l .. r) only.
pub record Permutes (l r : ℕ) (a b : ℕ → ℕ) : Type 0 where
  pub source : ℕ → ℕ
  pub target : ℕ → ℕ
  pub moved : (i : ℕ) → b i ≡ a (source i)
  pub target-source : (i : ℕ) → target (source i) ≡ i
  pub source-target : (i : ℕ) → source (target i) ≡ i
  pub outside : (i : ℕ) → (i < l) ⊎ (r ≤ i) → source i ≡ i

pub Permutes-refl : (l r : ℕ) (a : ℕ → ℕ) → Permutes l r a a
Permutes-refl l r a = record {
  source = λ i. i;
  target = λ i. i;
  moved = λ i. refl;
  target-source = λ i. refl;
  source-target = λ i. refl;
  outside = λ i h. refl;
}

pub Permutes-trans :
    {l r : ℕ} {a b c : ℕ → ℕ} → Permutes l r a b → Permutes l r b c → Permutes l r a c
Permutes-trans p q = record {
  source = λ i. p.source (q.source i);
  target = λ i. q.target (p.target i);
  moved = λ i. q.moved i ∙ p.moved (q.source i);
  target-source = λ i. ap q.target (p.target-source (q.source i)) ∙ q.target-source i;
  source-target = λ i. ap p.source (q.source-target (p.target i)) ∙ p.source-target i;
  outside = λ i h. ap p.source (q.outside i h) ∙ p.outside i h;
}

-- A part of a part.
pub Permutes-widen :
    {l r l' r' : ℕ} {a b : ℕ → ℕ} → l ≤ l' → r' ≤ r → Permutes l' r' a b → Permutes l r a b
Permutes-widen {l} {r} {l'} {r'} low high p = record {
  source = p.source;
  target = p.target;
  moved = p.moved;
  target-source = p.target-source;
  source-target = p.source-target;
  outside = λ i h. p.outside i (wider i h);
}
  where
    wider : (i : ℕ) → (i < l) ⊎ (r ≤ i) → (i < l') ⊎ (r' ≤ i)
    wider i (inl h) = inl (omega arith)
    wider i (inr h) = inr (omega arith)

exchange : ℕ → ℕ → ℕ → ℕ
exchange i j k = if j == k then i else if i == k then j else k

exchange-exchange : (i j k : ℕ) → exchange i j (exchange i j k) ≡ k
unfolding exchange
exchange-exchange i j k = ground arith

swap-exchange : (a : ℕ → ℕ) (i j k : ℕ) → swap a i j k ≡ a (exchange i j k)
unfolding swap exchange
swap-exchange a i j k = ground arith

exchange-outside :
    (l r i j k : ℕ) → l ≤ i → i < r → l ≤ j → j < r → (k < l) ⊎ (r ≤ k) → exchange i j k ≡ k
unfolding exchange
exchange-outside l r i j k li ir lj jr (inl h) = ground arith
exchange-outside l r i j k li ir lj jr (inr h) = ground arith

pub swap-Permutes :
    (l r : ℕ) (a : ℕ → ℕ) (i j : ℕ) → l ≤ i → i < r → l ≤ j → j < r → Permutes l r a (swap a i j)
swap-Permutes l r a i j li ir lj jr = record {
  source = exchange i j;
  target = exchange i j;
  moved = swap-exchange a i j;
  target-source = exchange-exchange i j;
  source-target = exchange-exchange i j;
  outside = λ k h. exchange-outside l r i j k li ir lj jr h;
}

module _ {l r : ℕ} {a b : ℕ → ℕ} (p : Permutes l r a b) where
  -- What is outside stays.
  pub Permutes-outside : (i : ℕ) → (i < l) ⊎ (r ≤ i) → b i ≡ a i
  Permutes-outside i h = p.moved i ∙ ap a (p.outside i h)

  -- The source of an inner place is an inner place.
  not_outside : (i : ℕ) → l ≤ i → i < r → (p.source i < l) ⊎ (r ≤ p.source i) → ⊥
  not_outside i li ir h =
      let fixed : p.source i ≡ i =
        sym (p.target-source (p.source i))
        ∙ ap p.target (p.outside (p.source i) h)
        ∙ p.target-source i in
      elim h [ inl low ↦ omega arith | inr high ↦ omega arith ]

  -- What holds of all inner elements still does.
  pub Permutes-all :
      (P : ℕ → Type 0) → ((i : ℕ) → l ≤ i → i < r → P (a i)) → (i : ℕ) → l ≤ i → i < r → P (b i)
  Permutes-all P h i li ir =
      let no = not_outside i li ir in
      let low : l ≤ p.source i = omega (arith, λ (t : p.source i < l). no (inl t)) in
      let high : p.source i < r = omega (arith, λ (t : r ≤ p.source i). no (inr t)) in
      subst P (sym (p.moved i)) (h (p.source i) low high)

-- What a swap leaves at its places, and at any other.
pub swap-left : (a : ℕ → ℕ) (i j : ℕ) → swap a i j i ≡ a j
unfolding swap
swap-left a i j = elim (Bool-cases (j == i)) [
  | inl e ↦ rw e (ap a (sym ((==_iff j i).0 e)))
  | inr e ↦ rw e (rw (==-refl i) refl)
]

pub swap-right : (a : ℕ → ℕ) (i j : ℕ) → swap a i j j ≡ a i
unfolding swap
swap-right a i j = rw (==-refl j) refl

pub swap-other : (a : ℕ → ℕ) (i j k : ℕ) → i ≢ k → j ≢ k → swap a i j k ≡ a k
unfolding swap
swap-other a i j k h h' = ground arith
