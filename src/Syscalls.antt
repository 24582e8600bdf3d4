-- ===== src/Syscalls.antt =====
-- The system calls on open files: kernel/syscall/read.c, write.c and ioctl.c. `S` is the state of the
-- devices behind the function pointers, which are arguments.
use mathlib.Core.Option
use kernel_study.Base.{
  ℕ, zero, suc, ◌+◌, ◌-◌, ◌^◌, ◌<◌, ◌≡◌, ◌≢◌, refl, arith, bit_and, List, [], Option, none, some,
  false, ◌==◌, if◌then◌else◌, length, u32,
}

-- -1 as the caller sees it.
abbrev pub minus_one : ℕ
minus_one = 2 ^ 32 - 1

abbrev pub ronly_flag : ℕ
ronly_flag = 1

abbrev pub wonly_flag : ℕ
wonly_flag = 0

-- `vnode_ops_t`, where `none` is `NULL`.
pub record VnodeOps (S : Type 0) : Type 0 where
  pub read : Option (ℕ → S → List ℕ × S)
  pub write : Option ((ℕ → ℕ) → ℕ → ℕ → S → S)
  pub ioctl : Option (ℕ → ℕ → S → ℕ × S)

-- `file_t`, without its name.
pub record File (S : Type 0) : Type 0 where
  pub ops : VnodeOps S
  pub flags : ℕ

-- `strlen`: the characters before the first 0 from `str` on; `none` is a loop still running.
unfoldable pub strlen : ℕ → (mem : ℕ → ℕ) → (str : ℕ) → Option ℕ
strlen zero mem str = none
strlen (suc fuel) mem str =
    let rest = Option.map suc (strlen fuel mem (u32 (str + 1))) in
    if mem str == 0 then some 0 else rest

-- `strlen` ends on a string that lies below the end of the address space, with more fuel than its
-- length, and returns that length.
pub strlen_lem :
    (fuel : ℕ) (mem : ℕ → ℕ) (str n : ℕ)
    → ((k : ℕ) → k < n → mem (str + k) ≢ 0)
    → mem (str + n) ≡ 0
    → str + n < 2 ^ 32
    → n < fuel
    → strlen fuel mem str ≡ some n
unfolding strlen
strlen_lem zero mem str n full ends low h = absurd (omega (arith, h))
strlen_lem (suc fuel) mem str zero full ends low h =
    let z : str + 0 ≡ str = omega arith in
    let here : mem str ≡ 0 = rw z at ends in ground (arith, here)
strlen_lem (suc fuel) mem str (suc n) full ends low h =
    let z : str + 0 ≡ str = omega arith in
    let here : mem str ≢ 0 = rw z at (full 0 (omega arith)) in
    let e : u32 (str + 1) ≡ str + 1 = omega (arith, low) in
    let ih =
      strlen_lem fuel mem (str + 1) n
        (λ k p.
          let g : str + 1 + k ≡ str + suc k = omega arith in rw g (full (suc k) (omega (arith, p))))
        (let g : str + 1 + n ≡ str + suc n = omega arith in rw g ends) (omega (arith, low))
        (omega (arith, h)) in
    let used : (mem str == 0) ≡ false = ground (arith, here) in rw (used, e, ih) refl

module _ {S : Type 0} where
  -- The result of a call, the bytes for the caller's buffer, and the devices afterwards.
  abbrev pub read_by : Option (ℕ → S → List ℕ × S) → ℕ → S → ℕ × List ℕ × S
  read_by none len s = (minus_one, [], s)
  read_by (some read) len s = let (out, s') = read len s in (length out, out, s')

  -- `sys_read`
  unfoldable pub sys_read : (fds : ℕ → File S) (fd len : ℕ) → S → ℕ × List ℕ × S
  sys_read fds fd len s =
      if bit_and (fds fd).flags (2 ^ 32 - 1 - ronly_flag) == 0
      then read_by (fds fd).ops.read len s
      else (minus_one, [], s)

  abbrev pub write_by :
      Option ((ℕ → ℕ) → ℕ → ℕ → S → S)
      → (fuel : ℕ) (mem : ℕ → ℕ) (buffer len : ℕ) → S
      → Option (ℕ × S)
  write_by none fuel mem buffer len s = some (minus_one, s)
  write_by (some write) fuel mem buffer len s =
      Option.map (λ n. (n, write mem buffer len s)) (strlen fuel mem buffer)

  -- `sys_write`, whose result is the length of the string at `buffer`, whatever `len` is.
  unfoldable pub sys_write :
      (fuel : ℕ) (fds : ℕ → File S) (mem : ℕ → ℕ) (fd buffer len : ℕ) → S → Option (ℕ × S)
  sys_write fuel fds mem fd buffer len s =
      if bit_and (fds fd).flags (2 ^ 32 - 1 - wonly_flag) == 0
      then write_by (fds fd).ops.write fuel mem buffer len s
      else some (minus_one, s)

  abbrev pub ioctl_by : Option (ℕ → ℕ → S → ℕ × S) → (request arg : ℕ) → S → ℕ × S
  ioctl_by none request arg s = (minus_one, s)
  ioctl_by (some ioctl) request arg s = ioctl request arg s

  -- `sys_ioctl`
  unfoldable pub sys_ioctl : (fds : ℕ → File S) (fd request arg : ℕ) → S → ℕ × S
  sys_ioctl fds fd request arg s = ioctl_by (fds fd).ops.ioctl request arg s
