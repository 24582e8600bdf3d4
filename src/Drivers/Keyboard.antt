-- ===== src/Drivers/Keyboard.antt =====
-- The characters that drivers/keyboard.c types.
use kernel_study.Base.{ℕ, ◌<◌, ◌≡◌, ◌≢◌, refl, Bool, true, ◌||◌, not, arith, ◌==◌, each, each_at}
use kernel_study.Drivers.{Key, typed, keyboard_interrupt_handler}

-- The character of a key, 0 for none.
abbrev pub char_of : Key → ℕ
char_of (typed c) = c
char_of _ = 0

abbrev apart : ℕ → ℕ → Bool
apart a b =
    let c = char_of (keyboard_interrupt_handler a) in
    c == 0 || (a == b || not (c == char_of (keyboard_interrupt_handler b)))

apart_table : each (λ a. each (apart a) 256) 256 ≡ true
unfolding each keyboard_interrupt_handler
apart_table = refl

-- No two scancodes type the same character.
pub keyboard_interrupt_handler_apart :
    (a b c : ℕ)
    → a < 256
    → b < 256
    → a ≢ b
    → 0 < c
    → keyboard_interrupt_handler a ≡ typed c
    → keyboard_interrupt_handler b ≢ typed c
keyboard_interrupt_handler_apart a b c ha hb ne pos ea eb =
    let t = each_at (apart a) 256 (each_at (λ a. each (apart a) 256) 256 apart_table a ha) b hb in
    let ca : char_of (keyboard_interrupt_handler a) ≡ c = rw ea refl in
    let cb : char_of (keyboard_interrupt_handler b) ≡ c = rw eb refl in ground (arith, t, ca, cb)
