-- ===== src/Time.antt =====
-- `std::time::Duration`, as far as the sources use it.
use actix_web_lab.Common.{ℕ, ◌+◌, ◌*◌, ◌/◌, ◌%◌, ◌^◌, ◌-◌, ◌≡◌, arith}

pub record Duration : Type 0 where
  pub as_secs : ℕ
  pub subsec_nanos : ℕ

abbrev pub from_secs : ℕ → Duration
from_secs secs = record { as_secs = secs; subsec_nanos = 0 }

unfoldable pub from_millis : ℕ → Duration
from_millis millis = record { as_secs = millis / 1000; subsec_nanos = millis % 1000 * 1_000_000 }

unfoldable pub as_millis : Duration → ℕ
as_millis d = d.as_secs * 1000 + d.subsec_nanos / 1_000_000

abbrev pub max_u64 : ℕ
max_u64 = 2 ^ 64 - 1

pub as_millis-from_millis : (millis : ℕ) → as_millis (from_millis millis) ≡ millis
unfolding as_millis from_millis
as_millis-from_millis millis = omega arith
