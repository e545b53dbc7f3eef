-- ===== src/Kernel/Timer/Tests.antt =====
-- A timer of 25 ticks goes between two others, which are due after 10 and 30.
use linux.Base.{◌≡◌, refl, ◌==◌, if◌then◌else◌, [], ◌∷◌, arith}
use linux.Kernel.Timer.{Timers, sink, put_timer}
use linux.Kernel.Timer.Order.{contents, IsFree, IsPut, put_timer-IsPut}

abbrev two_timers : Timers
two_timers = record {
  timer = λ p.
      if p == 1
      then record { jiffies = 10; fn = 700; next = 2 }
      else if p == 2
      then record { jiffies = 20; fn = 800; next = 0 }
      else record { jiffies = 0; fn = 0; next = 0 };
  next_timer = 1;
}

-- The timer that was due after 30 ticks is now due after 45.
third_timer :
    contents (put_timer 3 25 900 two_timers).timer (3 ∷ 1 ∷ 2 ∷ [])
    ≡ (10, 700) ∷ (15, 900) ∷ (20, 800) ∷ []
unfolding put_timer sink
third_timer = refl

third-IsFree : IsFree 3 (1 ∷ 2 ∷ []) two_timers
third-IsFree = record {
  not_null = omega arith;
  not_in = (omega arith, (omega arith, tt));
  distinct = ((omega arith, tt), (tt, tt));
  size = omega arith;
  links = (refl, (omega arith), (refl, (omega arith), refl));
}

put_timer-IsPut_example : IsPut 3 25 900 (1 ∷ 2 ∷ []) two_timers (put_timer 3 25 900 two_timers)
put_timer-IsPut_example =
    put_timer-IsPut 3 25 900 (1 ∷ 2 ∷ []) two_timers (omega arith) third-IsFree
