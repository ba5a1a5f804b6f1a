-- ===== src/Nemu/Keyboard/Keymap.antt =====
-- The table of init_keymap of ysyx-workbench/nemu/src/device/keyboard.c.
use for_ysyx_self_store_by_h.Base.{
  ℕ, zero, suc, ◌+◌, ◌≡◌, ◌≢◌, refl, ap, sym, ◌∙◌, arith, false, ◌==◌, List, [], ◌∷◌, some,
  get_elem?, eq_of_some, update,
}
use for_ysyx_self_store_by_h.Nemu.Keyboard.{key_none, fill_keymap, init_keymap}

abbrev pub IsAbsent : ℕ → List ℕ → Type 0
IsAbsent x [] = Unit
IsAbsent x (y ∷ ys) = (x ≢ y) × IsAbsent x ys

abbrev pub IsDistinct : List ℕ → Type 0
IsDistinct [] = Unit
IsDistinct (x ∷ xs) = IsAbsent x xs × IsDistinct xs

fill_keymap-IsAbsent :
    (number : ℕ) (scancodes : List ℕ) (keymap : ℕ → ℕ) (x : ℕ)
    → IsAbsent x scancodes
    → fill_keymap number scancodes keymap x ≡ keymap x
fill_keymap-IsAbsent number [] keymap x h = refl
fill_keymap-IsAbsent number (y ∷ ys) keymap x h =
    let apart : (y == x) ≡ false = ground (arith, h.0) in
    fill_keymap-IsAbsent (number + 1) ys (update keymap y number) x h.1 ∙ rw apart refl

fill_keymap-get_elem? :
    (number : ℕ) (scancodes : List ℕ) (keymap : ℕ → ℕ) (i x : ℕ)
    → IsDistinct scancodes
    → get_elem? scancodes i ≡ some x
    → fill_keymap number scancodes keymap x ≡ number + i
fill_keymap-get_elem? number [] keymap i x h at = cc
fill_keymap-get_elem? number (y ∷ ys) keymap zero x h at =
    let same : y ≡ x = eq_of_some at in
    ap (fill_keymap (number + 1) ys (update keymap y number)) (sym same)
    ∙ fill_keymap-IsAbsent (number + 1) ys (update keymap y number) y h.0
    ∙ ground arith
fill_keymap-get_elem? number (y ∷ ys) keymap (suc i) x h at =
    fill_keymap-get_elem? (number + 1) ys (update keymap y number) i x h.1 at ∙ omega arith

-- Where the keys have different scancodes, the table takes the scancode of the i-th key, from 0, to
-- i + 1, and every other scancode to NEMU_KEY_NONE.
init_keymap-get_elem? :
    (scancodes : List ℕ) (i x y : ℕ)
    → IsDistinct scancodes
    → get_elem? scancodes i ≡ some x
    → IsAbsent y scancodes
    → (init_keymap scancodes x ≡ i + 1) × (init_keymap scancodes y ≡ key_none)
unfolding init_keymap
init_keymap-get_elem? scancodes i x y h at absent = (
  fill_keymap-get_elem? 1 scancodes (λ scancode. key_none) i x h at ∙ omega arith,
  fill_keymap-IsAbsent 1 scancodes (λ scancode. key_none) y absent,
)
