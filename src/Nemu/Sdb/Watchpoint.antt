-- ===== src/Nemu/Sdb/Watchpoint.antt =====
-- The pool of watchpoints of ysyx-workbench/nemu/src/monitor/sdb/watchpoint.c, before any is used.
use for_ysyx_self_store_by_h.Base.{
  ℕ, zero, suc, ◌+◌, ◌-◌, Option, none, some, List, [], ◌∷◌, if◌then◌else◌, ◌==◌, update,
}

-- NR_WP
abbrev pub nr_wp : ℕ
nr_wp = 32

-- wp_pool, head and free_; a pointer is an index into the pool, or `none` for NULL.
pub record Pool : Type 0 where
  pub no : ℕ → ℕ
  pub next : ℕ → Option ℕ
  pub head : Option ℕ
  pub free : Option ℕ

-- The loop, from the watchpoint `i` on for so many.
unfoldable pub link : ℕ → ℕ → Pool → Pool
link zero i p = p
link (suc n) i p = link n (i + 1) (record p {
  no = update p.no i i;
  next = update p.next i (if i == nr_wp - 1 then none else some (i + 1));
})

unfoldable pub init_wp_pool : Pool → Pool
unfolding link
init_wp_pool p = record (link nr_wp 0 p) { head = none; free = some 0 }

-- The numbers of the watchpoints on a list, as far as so many.
abbrev pub follow : Pool → ℕ → Option ℕ → List ℕ
follow p zero w = []
follow p (suc n) none = []
follow p (suc n) (some i) = p.no i ∷ follow p n (p.next i)
