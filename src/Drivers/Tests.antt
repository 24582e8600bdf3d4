-- ===== src/Drivers/Tests.antt =====
-- Key presses, and a disk that is found.
use kernel_study.Base.{
  ℕ, ◌<◌, ◌≤◌, ◌≡◌, refl, ◌&&◌, ◌==◌, leb, ltb, if◌then◌else◌, bit_and, some, inr, arith,
}
use kernel_study.Drivers.Identify.{
  Answers, init_disk, init_disk_lem, err_status, master_device, identify_error,
}
use kernel_study.Drivers.{starts_task, bad_read, keyboard_interrupt_handler}

-- The key `t` starts a task, and Escape reads through `NULL`.
key_runs : (keyboard_interrupt_handler 20 ≡ starts_task) × (keyboard_interrupt_handler 1 ≡ bad_read)
unfolding keyboard_interrupt_handler
key_runs = (refl, refl)

-- A disk that is busy for two reads and has data at the fifth.
abbrev answers : ℕ → ℕ
answers i = if leb 1 i && ltb i 3 then 0x80 else if i == 5 then 0x58 else 0x50

busy_until : (k : ℕ) → 1 ≤ k → k < 3 → answers k ≡ 0x80
busy_until k low high = ground (arith, low, high)

only_four : (k : ℕ) → 3 < k → k < 5 → k ≡ 4
only_four k low high = omega (arith, low, high)

answers-Answers : Answers answers 3 5
answers-Answers = record {
  some_device = λ e. omega (arith, e);
  busy = λ k low high. rw (busy_until k low high) (λ e. omega (arith, e));
  ready = refl;
  order = (omega arith, omega arith);
  no_error = λ k low high. rw (only_four k low high) refl;
  no_data = λ k low high. rw (only_four k low high) refl;
  ends = inr (λ e. omega (arith, e));
}

init_disk_lem_example :
    init_disk answers 5
    ≡ (if bit_and (answers 5) err_status == 0 then some master_device else some identify_error)
init_disk_lem_example = init_disk_lem answers 3 5 5 answers-Answers (omega arith)
