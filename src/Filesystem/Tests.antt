-- ===== src/Filesystem/Tests.antt =====
-- A size field of an archive.
use kernel_study.Base.{ℕ, ◌+◌, ◌<◌, ◌≤◌, ◌≡◌, refl, inl, inr, arith, ◌==◌, if◌then◌else◌}
use kernel_study.Filesystem.{tar_parse_octal}
use kernel_study.Filesystem.Octal.{tar_parse_octal_lem}

-- One space and the digits 5, 0 and 7.
abbrev size_field : ℕ → ℕ
size_field i =
    if i == 0
    then 32
    else (if i == 1 then b'5' else (if i == 2 then b'0' else (if i == 3 then b'7' else 0)))

size_low : (k : ℕ) → k < 3 → b'0' ≤ size_field (1 + k)
size_low k h = ground arith

size_high : (k : ℕ) → k < 3 → size_field (1 + k) ≤ b'7'
size_high k h = ground arith

tar_parse_octal_lem_example : tar_parse_octal size_field 12 ≡ 327
tar_parse_octal_lem_example = tar_parse_octal_lem size_field 12 1 3 (record {
  spaces = λ k h. ground arith;
  low = size_low;
  high = size_high;
  some_digit = omega arith;
  inside = omega arith;
  ends = inr (inl refl);
  short = omega arith;
})
