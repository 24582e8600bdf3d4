-- ===== src/Memory/User/Zero.antt =====
-- `sys_mmap` of no bytes.
use kernel_study.Base.{ℕ, zero, suc, ◌+◌, ◌≤◌, ◌≡◌, false, ◌/◌, ◌%◌}
use kernel_study.Memory.Paging.{Paging}
use kernel_study.Memory.User.{Walk, user_page}

-- Every entry of the page tables from number `k` on, `rounds` of them in order; number `k` is the entry
-- `k % 1024` of the table `k / 1024`. Each one that is unused gets a page.
unfoldable pub all_pages : (cr3 rounds k : ℕ) → Paging → Paging
all_pages cr3 zero k s = s
all_pages cr3 (suc rounds) k s =
    all_pages cr3 rounds (k + 1) (user_page cr3 (k / 1024) (k % 1024) s).1

-- Still walking, with at most `n` pages mapped.
record Walking (n : ℕ) (s : Paging) (w : Walk) : Type 0 where
  walks : w.returned ≡ false
  few : w.mapped_pages ≤ n
  state : w.paging ≡ s
