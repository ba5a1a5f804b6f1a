-- ===== src/Nemu/Keyboard/Fifo.antt =====
-- The key queue is a first-in-first-out queue of at most 1023 events.
use for_ysyx_self_store_by_h.Base.{
  ℕ, zero, suc, ◌+◌, ◌%◌, ◌<◌, ◌≡◌, ◌⊎◌, inl, inr, refl, ap, ◌∙◌, sym, arith, true, false, ◌==◌,
  ltb, Bool-cases, some, List, [], ◌∷◌, ◌++◌, length, length-append, get_elem?, eq_of_some, update,
}
use for_ysyx_self_store_by_h.Nemu.Result.{ok, failed, assertion}
use for_ysyx_self_store_by_h.Nemu.Keyboard.{
  Queue, key_queue_len, key_none, key_enqueue, key_dequeue,
}

-- The queue holds the events `keys`, the oldest first.
pub record Holds (q : Queue) (keys : List ℕ) : Type 0 where
  pub front_in : q.front < key_queue_len
  pub few : length keys < key_queue_len
  pub rear_at : q.rear ≡ (q.front + length keys) % key_queue_len
  pub slot_at :
      (i key : ℕ) → get_elem? keys i ≡ some key → q.slots ((q.front + i) % key_queue_len) ≡ key

-- An index into a list with one more element.
get_elem?-snoc :
    (keys : List ℕ) (key i k : ℕ)
    → get_elem? (keys ++ key ∷ []) i ≡ some k
    → ((i < length keys) × (get_elem? keys i ≡ some k)) ⊎ ((i ≡ length keys) × (key ≡ k))
get_elem?-snoc [] key zero k h = inr (refl, eq_of_some h)
get_elem?-snoc [] key (suc i) k h = cc
get_elem?-snoc (x ∷ keys) key zero k h = inl (omega arith, h)
get_elem?-snoc (x ∷ keys) key (suc i) k h = elim (get_elem?-snoc keys key i k h) [
  | inl (low, e) ↦ inl (omega arith, e)
  | inr (at, e) ↦ inr (ap suc at, e)
]

-- On a queue that holds a list of events, key_enqueue appends the event if there are fewer than
-- 1023, and fails its assertion if there are 1023.
pub key_enqueue-Holds :
    (q : Queue) (keys : List ℕ) (key : ℕ)
    → Holds q keys
    → ((length keys < 1023)
        × ((q' : Queue) × (key_enqueue key q ≡ ok q') × Holds q' (keys ++ key ∷ [])))
      ⊎ ((length keys ≡ 1023) × (key_enqueue key q ≡ failed assertion))
unfolding key_enqueue
key_enqueue-Holds q keys key h = elim (Bool-cases (ltb (length keys) 1023)) [
  | inl few ↦
      let low : length keys < 1023 = ground (arith, few) in
      let free : ((q.rear + 1) % key_queue_len == q.front) ≡ false =
        ground (arith, h.rear_at, h.front_in, low) in
      inl (
        low,
        (
          next,
          rw free refl,
          record {
            front_in = h.front_in;
            few = omega (arith, length-append keys (key ∷ []), low);
            rear_at = omega (arith, h.rear_at, length-append keys (key ∷ []));
            slot_at = λ i k at. elim (get_elem?-snoc keys key i k at) [
              | inl (below, e) ↦
                  let apart : (q.rear == (q.front + i) % key_queue_len) ≡ false =
                    ground (arith, h.rear_at, below, low) in
                  rw apart (h.slot_at i k e)
              | inr (last, e) ↦
                  let there : (q.rear == (q.front + i) % key_queue_len) ≡ true =
                    ground (arith, h.rear_at, last) in
                  rw there e
            ];
          },
        ),
      )
  | inr many ↦
      let full : length keys ≡ 1023 = ground (arith, many, h.few) in
      let caught : ((q.rear + 1) % key_queue_len == q.front) ≡ true =
        ground (arith, h.rear_at, h.front_in, full) in
      inr (full, rw caught refl)
]
  where
    next : Queue
    next = record q { slots = update q.slots q.rear key; rear = (q.rear + 1) % key_queue_len }

-- On a queue that holds a list of events, key_dequeue hands out the oldest one and leaves the others,
-- or returns 0 and changes nothing if there is none.
pub key_dequeue-Holds :
    (q : Queue) (keys : List ℕ)
    → Holds q keys
    → ((keys ≡ []) × (key_dequeue q ≡ (key_none, q)))
      ⊎ ((key : ℕ) × (rest : List ℕ) × (q' : Queue) × (keys ≡ key ∷ rest)
          × (key_dequeue q ≡ (key, q'))
          × Holds q' rest)
unfolding key_dequeue
key_dequeue-Holds q [] h =
    let level : (q.front == q.rear) ≡ true = ground (arith, h.rear_at, h.front_in) in
    inl (refl, rw level refl)
key_dequeue-Holds q (key ∷ rest) h =
    let apart : (q.front == q.rear) ≡ false = ground (arith, h.rear_at, h.front_in, h.few) in
    let start : (q.front + 0) % key_queue_len ≡ q.front = omega (arith, h.front_in) in
    let oldest : q.slots q.front ≡ key = ap q.slots (sym start) ∙ h.slot_at 0 key refl in
    inr (
      key,
      rest,
      next,
      refl,
      rw apart (ap (λ k. (k, next)) oldest),
      record {
        front_in = omega arith;
        few = omega (arith, h.few);
        rear_at = omega (arith, h.rear_at, h.few);
        slot_at = λ i k at.
            let moved : (next.front + i) % key_queue_len ≡ (q.front + suc i) % key_queue_len =
              omega arith in
            ap q.slots moved ∙ h.slot_at (suc i) k at;
      },
    )
  where
    next : Queue
    next = record q { front = (q.front + 1) % key_queue_len }
