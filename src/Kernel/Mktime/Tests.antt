-- ===== src/Kernel/Mktime/Tests.antt =====
-- kernel/mktime.c at concrete dates.
use linux.Base.{◌≡◌, ◌<◌, ◌%◌, ◌^◌, refl, arith}
use linux.Base.Int.{pos, negsuc, long_of, ◌+ℤ◌, ◌-ℤ◌}
use linux.Kernel.Mktime.{Tm, sum_of, kernel_mktime}
use linux.Kernel.Mktime.Calendar.{epoch_seconds, kernel_mktime-epoch_seconds}

-- 3 August 2011, 12:34:56, with the two-digit year of the clock chip.
abbrev august : Tm
august = record { tm_sec = 56; tm_min = 34; tm_hour = 12; tm_mday = 3; tm_mon = 7; tm_year = 11 }

kernel_mktime-august : kernel_mktime august ≡ pos 1312374896
unfolding kernel_mktime sum_of ◌+ℤ◌ ◌-ℤ◌
kernel_mktime-august = refl

-- 1 January 2040, after the end of a `long`.
abbrev too_late : Tm
too_late = record { tm_sec = 0; tm_min = 0; tm_hour = 0; tm_mday = 1; tm_mon = 0; tm_year = 40 }

kernel_mktime-too_late : kernel_mktime too_late ≡ negsuc 2085978495
unfolding kernel_mktime sum_of ◌+ℤ◌ ◌-ℤ◌
kernel_mktime-too_late = refl

kernel_mktime-epoch_seconds_example :
    (kernel_mktime august ≡ long_of (epoch_seconds 41 august % 2 ^ 32))
    × (epoch_seconds 41 august < 2 ^ 31 → kernel_mktime august ≡ pos (epoch_seconds 41 august))
kernel_mktime-epoch_seconds_example =
    kernel_mktime-epoch_seconds august (omega arith) (omega arith) (omega arith)
