-- ===== src/Drivers/Identify.antt =====
-- What `init_disk` of kernel/filesystem/disk.c does with the answers of the disk: `status n` is the answer to the n-th
-- read of the status register. `i` counts the reads.
use kernel_study.Base.{
  ℕ, zero, suc, ◌+◌, ◌-◌, ◌<◌, ◌≤◌, ◌≡◌, ◌≢◌, refl, List, [], ◌∷◌, Option, none, some, arith, ◌==◌,
  true, false, if◌then◌else◌, sym, bit_and, ◌⊎◌,
}
use kernel_study.Drivers.{
  PortOp, outb, drive_register, sector_count_register, lba_lo, lba_mid, lba_hi,
  status_command_register,
}

abbrev pub err_status : ℕ
err_status = 0x01

abbrev pub bsy_status : ℕ
bsy_status = 0x80

abbrev pub drq_status : ℕ
drq_status = 0x08

-- `wait_bsy`: the number of reads after it; `none` is a loop that is still running.
unfoldable pub wait_bsy : (status : ℕ → ℕ) → (fuel i : ℕ) → Option ℕ
wait_bsy status zero i = none
wait_bsy status (suc fuel) i =
    let rest = wait_bsy status fuel (i + 1) in
    if bit_and (status i) bsy_status == 0 then some (i + 1) else rest

unfoldable pub wait_drq : (status : ℕ → ℕ) → (fuel i : ℕ) → Option ℕ
wait_drq status zero i = none
wait_drq status (suc fuel) i =
    let rest = wait_drq status fuel (i + 1) in
    if bit_and (status i) drq_status == 0 then rest else some (i + 1)

-- The result of `init_disk`, with what it writes to the terminal.
pub data Found : Type 0 where
  no_device identify_error master_device : Found

-- Its loop.
unfoldable pub identify : (status : ℕ → ℕ) → (fuel i : ℕ) → Option Found
identify status zero i = none
identify status (suc fuel) i =
    let rest = identify status fuel (i + 1) in
    if bit_and (status i) err_status == 0
    then (if bit_and (status i) drq_status == 0 then rest else some master_device)
    else some identify_error

-- The command that it sends first.
abbrev pub identify_command : List PortOp
identify_command =
    outb drive_register 0xA0
    ∷ outb sector_count_register 0
    ∷ outb lba_lo 0
    ∷ outb lba_mid 0
    ∷ outb lba_hi 0
    ∷ outb status_command_register 0xEC
    ∷ []

abbrev pub then_identify : (status : ℕ → ℕ) → (fuel : ℕ) → Option ℕ → Option Found
then_identify status fuel none = none
then_identify status fuel (some i) = identify status fuel i

unfoldable pub init_disk : (status : ℕ → ℕ) → (fuel : ℕ) → Option Found
init_disk status fuel =
    let waited = then_identify status fuel (wait_bsy status fuel 1) in
    if status 0 == 0 then some no_device else waited

-- The disk is busy until read `b`, and then neither fails nor has data until read `e`.
pub record Answers (status : ℕ → ℕ) (b e : ℕ) : Type 0 where
  pub some_device : status 0 ≢ 0
  pub busy : (k : ℕ) → 1 ≤ k → k < b → bit_and (status k) bsy_status ≢ 0
  pub ready : bit_and (status b) bsy_status ≡ 0
  pub order : (1 ≤ b) × (b < e)
  pub no_error : (k : ℕ) → b < k → k < e → bit_and (status k) err_status ≡ 0
  pub no_data : (k : ℕ) → b < k → k < e → bit_and (status k) drq_status ≡ 0
  pub ends : (bit_and (status e) err_status ≢ 0) ⊎ (bit_and (status e) drq_status ≢ 0)

wait_bsy_lem :
    (status : ℕ → ℕ) (fuel i n : ℕ)
    → ((k : ℕ) → i ≤ k → k < i + n → bit_and (status k) bsy_status ≢ 0)
    → bit_and (status (i + n)) bsy_status ≡ 0
    → n < fuel
    → wait_bsy status fuel i ≡ some (i + n + 1)
unfolding wait_bsy
wait_bsy_lem status zero i n busy ready lt = absurd (omega (arith, lt))
wait_bsy_lem status (suc fuel) i zero busy ready lt =
    let e : i + 0 ≡ i = omega arith in
    let now : bit_and (status i) bsy_status ≡ 0 = rw (sym e) ready in rw (now, e) refl
wait_bsy_lem status (suc fuel) i (suc n) busy ready lt =
    let not_yet : (bit_and (status i) bsy_status == 0) ≡ false =
      ground (arith, busy i (omega arith) (omega arith)) in
    let e : i + suc n ≡ i + 1 + n = omega arith in
    let later =
      wait_bsy_lem status fuel (i + 1) n
        (λ k low high. busy k (omega (arith, low)) (omega (arith, high))) (rw (sym e) ready)
        (omega (arith, lt)) in
    rw (not_yet, e) later

identify_lem :
    (status : ℕ → ℕ) (fuel i n : ℕ)
    → ((k : ℕ) → i ≤ k → k < i + n → bit_and (status k) err_status ≡ 0)
    → ((k : ℕ) → i ≤ k → k < i + n → bit_and (status k) drq_status ≡ 0)
    → (bit_and (status (i + n)) err_status ≢ 0) ⊎ (bit_and (status (i + n)) drq_status ≢ 0)
    → n < fuel
    → identify status fuel i ≡ (
        if bit_and (status (i + n)) err_status == 0
        then some master_device
        else some identify_error)
unfolding identify
identify_lem status zero i n err drq ends lt = absurd (omega (arith, lt))
identify_lem status (suc fuel) i zero err drq ends lt =
    let e : i + 0 ≡ i = omega arith in
    let now : (bit_and (status i) err_status ≢ 0) ⊎ (bit_and (status i) drq_status ≢ 0) =
      rw (sym e) ends in
    rw e (ground (arith, now))
identify_lem status (suc fuel) i (suc n) err drq ends lt =
    let no_err : (bit_and (status i) err_status == 0) ≡ true =
      ground (arith, err i (omega arith) (omega arith)) in
    let no_drq : (bit_and (status i) drq_status == 0) ≡ true =
      ground (arith, drq i (omega arith) (omega arith)) in
    let e : i + suc n ≡ i + 1 + n = omega arith in
    let later =
      identify_lem status fuel (i + 1) n
        (λ k low high. err k (omega (arith, low)) (omega (arith, high)))
        (λ k low high. drq k (omega (arith, low)) (omega (arith, high))) (rw (sym e) ends)
        (omega (arith, lt)) in
    rw (no_err, no_drq, e) later

-- A disk that answers, is busy until read `b` and neither fails nor has data before read `e`: with `e` as fuel
-- `init_disk` ends, with an error exactly if the error bit is set in read `e`.
pub init_disk_lem :
    (status : ℕ → ℕ) (b e fuel : ℕ)
    → Answers status b e
    → e ≤ fuel
    → init_disk status fuel
      ≡ (if bit_and (status e) err_status == 0 then some master_device else some identify_error)
unfolding init_disk
init_disk_lem status b e fuel a enough =
    let device : (status 0 == 0) ≡ false = ground (arith, a.some_device) in
    let at : 1 + (b - 1) ≡ b = omega (arith, a.order.0) in
    let waited =
      wait_bsy_lem status fuel 1 (b - 1) (λ k low high. a.busy k low (omega (arith, high, at)))
        (rw at a.ready) (omega (arith, a.order.0, a.order.1, enough)) in
    let at' : b + 1 + (e - b - 1) ≡ e = omega (arith, a.order.1) in
    let found =
      identify_lem status fuel (b + 1) (e - b - 1)
        (λ k low high. a.no_error k (omega (arith, low)) (omega (arith, high, at')))
        (λ k low high. a.no_data k (omega (arith, low)) (omega (arith, high, at'))) (rw at' a.ends)
        (omega (arith, enough, a.order.0, a.order.1)) in
    rw (device, waited, at) (rw at' at found)
