-- ===== src/Nemu/Result.antt =====
-- How an operation of NEMU ends: with a value, by a failed check that aborts the emulator (panic,
-- Assert, assert), or with an access outside a host array, which C leaves undefined.
use for_ysyx_self_store_by_h.Base.{ℕ, Bool, true, false, ◌≡◌, refl, subst, if◌then◌else◌}

pub data Failure : Type 0 where
  assertion : Failure
  out_of_bound : (addr : ℕ) → Failure
  mmio_overlap : (low high : ℕ) → Failure
  unsupported : Failure

pub data Result {ℓ} (A : Type ℓ) : Type ℓ where
  ok : A → Result A
  failed : Failure → Result A
  fault : Result A

-- One step after another; the first failure ends the operation.
infixl 5 ◌>>=◌ ◌>>◌
abbrev pub ◌>>=◌ {ℓ μ} : {X : Type ℓ} {Y : Type μ} → Result X → (X → Result Y) → Result Y
fault >>= next = fault
failed e >>= next = failed e
ok x >>= next = next x

abbrev pub ◌>>◌ {ℓ} : {Y : Type ℓ} → Result (Unit {0}) → Result Y → Result Y
step >> rest = step >>= λ done. rest

-- `Assert(test)` and `assert(test)`.
abbrev pub check : Bool → Failure → Result (Unit {0})
check true e = ok tt
check false e = failed e

-- Inversion of a successful step.
pub >>=-eq-ok {ℓ μ} :
    {X : Type ℓ} {Y : Type μ} (r : Result X) (next : X → Result Y) {y : Y}
    → (r >>= next) ≡ ok y
    → (x : X) × (r ≡ ok x) × (next x ≡ ok y)
>>=-eq-ok fault next h = cc
>>=-eq-ok (failed e) next h = cc
>>=-eq-ok (ok x) next h = (x, refl, h)

-- The same for a check, and for any step without a value.
pub check-eq-ok : (b : Bool) (e : Failure) → check b e ≡ ok tt → b ≡ true
check-eq-ok true e h = refl
check-eq-ok false e h = cc

pub >>-eq-ok {ℓ} :
    {B : Type ℓ} (m : Result (Unit {0})) (k : Result B) {b : B}
    → (m >> k) ≡ ok b
    → (m ≡ ok tt) × (k ≡ ok b)
>>-eq-ok (ok tt) k h = (refl, h)
>>-eq-ok (failed e) k h = cc
>>-eq-ok fault k h = cc

pub eq_of_ok {ℓ} : {A : Type ℓ} {a b : A} → ok a ≡ ok b → a ≡ b
eq_of_ok h = cc

-- What holds of the value of an operation, if it ends with one.
abbrev pub Post {ℓ κ} : {A : Type ℓ} → (A → Type κ) → Result A → Type κ
Post P (ok a) = P a
Post P (failed e) = Unit
Post P fault = Unit

pub record Ensures {ℓ κ} {A : Type ℓ} (P : A → Type κ) (r : Result A) : Type κ where
  pub holds : Post P r

module _ {ℓ κ} {A : Type ℓ} {P : A → Type κ} where
  pub Ensures-ok : (a : A) → P a → Ensures P (ok a)
  Ensures-ok a h = record { holds = h }

  pub Ensures-if :
      (b : Bool) (x y : Result A) → Ensures P x → Ensures P y → Ensures P (if b then x else y)
  Ensures-if true x y p q = p
  Ensures-if false x y p q = q

  pub Ensures->>= {ι} :
      {B : Type ι} (m : Result B) (f : B → Result A)
      → ((b : B) → m ≡ ok b → Ensures P (f b))
      → Ensures P (m >>= f)
  Ensures->>= (ok b) f h = h b refl
  Ensures->>= (failed e) f h = record { holds = tt }
  Ensures->>= fault f h = record { holds = tt }

  pub Ensures-elim : {r : Result A} {a : A} → Ensures P r → r ≡ ok a → P a
  Ensures-elim {r} e h = (subst (Ensures P) h e).holds

-- The same from what the first step promises.
pub Ensures-chain {ℓ κ ι μ} :
    {A : Type ℓ} {B : Type ι} {Q : B → Type μ} {P : A → Type κ} (m : Result B) (f : B → Result A)
    → Ensures Q m
    → ((b : B) → Q b → Ensures P (f b))
    → Ensures P (m >>= f)
Ensures-chain (ok b) f q h = h b q.holds
Ensures-chain (failed e) f q h = record { holds = tt }
Ensures-chain fault f q h = record { holds = tt }

pub Ensures-mono {ℓ κ ι} :
    {A : Type ℓ} {P : A → Type κ} {Q : A → Type ι} {r : Result A}
    → Ensures P r
    → ((a : A) → P a → Q a)
    → Ensures Q r
Ensures-mono {r = ok a} p h = record { holds = h a p.holds }
Ensures-mono {r = failed e} p h = record { holds = tt }
Ensures-mono {r = fault} p h = record { holds = tt }
