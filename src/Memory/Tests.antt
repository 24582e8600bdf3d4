-- ===== src/Memory/Tests.antt =====
-- Runs of the address arithmetic and of the kernel heap's choices.
use kernel_study.Base.{ℕ, ◌==◌, if◌then◌else◌}

-- The heap's first three pages are taken.
abbrev some_pages : ℕ → ℕ
some_pages i = if i == 0 then 2 else (if i == 1 then 1 else (if i == 2 then 1 else 0))
