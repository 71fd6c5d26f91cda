-- ===== src/Desktop/Tests.antt =====
-- The theorem about src/client/desktop.c at a concrete run.
use zimbr.Prelude.{◌+◌, ◌<◌, refl}
use zimbr.Desktop.{State, wake, look, wakes, looks, Steps, stay, then_step, initial}
use zimbr.Desktop.Wake.{Returns, wait-Returns}

-- the thread looks at the flag and waits, and then another wakes it
abbrev woken : State
woken = wake (look initial)

run : Steps initial woken
unfolding look wake
run =
    then_step initial (look initial) woken
      (then_step initial initial (look initial) (stay initial) (looks initial refl))
      (wakes (look initial))

wait-Returns_example : (0 < woken.pushing + woken.queued) × Returns woken
unfolding look wake
wait-Returns_example = wait-Returns woken run refl refl
