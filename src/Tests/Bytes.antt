-- ===== src/Tests/Bytes.antt =====
-- Tests of lib/string.c.
use arm64os.Common.{ℕ, arith, Returns, ◌==◌, if◌then◌else◌}
use arm64os.Memory.{memset}
use arm64os.Memory.Bytes.{IsFilled}
use arm64os.Memory.Fill.{memset-IsFilled}

-- Nonzero bytes but at 1003.
abbrev text : ℕ → ℕ
text a = if a == 1003 then 0 else 65

memset-IsFilled_example : Returns (memset 100 1001 258 40 text) (IsFilled 1001 40 2 text)
memset-IsFilled_example =
    memset-IsFilled 100 1001 258 40 text (omega arith) (omega arith) (omega arith)
