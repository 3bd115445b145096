-- ===== src/Limits.antt =====
-- src/poolsize.cpp, src/watermark.cpp and src/stacksize.cpp: checked sizes. A size_t is never below 0, so
-- `value <= 0` is `value == 0` and `value < 0` is false; `none` is the exception.
use boost_task.Prelude.{ℕ, Option, none, some, leb, ltb, if◌then◌else◌}

unfoldable pub poolsize : ℕ → Option ℕ
poolsize value = if leb value 0 then none else some value

unfoldable pub high_watermark : ℕ → Option ℕ
high_watermark value = if leb value 0 then none else some value

unfoldable pub low_watermark : ℕ → Option ℕ
low_watermark value = if ltb value 0 then none else some value

unfoldable pub stacksize : ℕ → Option ℕ
stacksize value = if leb value 0 then none else some value
