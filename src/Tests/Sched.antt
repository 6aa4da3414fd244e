-- ===== src/Tests/Sched.antt =====
-- The scheduler of src/lthread_sched.c and the threads of src/lthread.c on small inputs.
use lthread.Base.{ℕ, ◌≡◌, refl, ◌≤◌, true, false, some, none, [], ◌∷◌, arith, ◌==◌, if◌then◌else◌}
use lthread.Rb.{find_entry, insert_entry}
use lthread.Rb.Model.{sorted_list}
use lthread.Sched.State.{Lthread, zeroed, no_flags, set_bit, Sched, has, sleeping, ev_read}
use lthread.Sched.Sleep.{
  desched_sleep, sched_sleep_begin, sched_sleep_end, min_timeout, insert_sleeper,
}
use lthread.Sched.Sleep.Inv.{SleepersAgree}
use lthread.Sched.Sleep.Slot.{Asleep, sched_sleep_begin-Asleep}
use lthread.Sched.Sleep.Wake.{min_timeout_lem, Attained, remaining, sleep_wake_roundtrip}
use lthread.Sched.Event.{desched_event, sched_event_begin, returned, yielded, aborted, EventStep}
use lthread.Sched.Event.Laws.{Delivered, desched_event-sched_event}

abbrev pub idle : Lthread
idle = record zeroed { fd_wait = none }

abbrev pub at_rest : Sched
at_rest = record {
  lt = λ q. idle;
  freed = λ q. false;
  birth = 0;
  clock = 5000;
  spawned_lthreads = 2;
  default_timeout = 3000000;
  current_lthread = 1;
  ready_q = [];
  defer_q = [];
  busy_l = [];
  sleep_tree = [];
  wait_tree = [];
  poller = [];
  blocked = λ c. [];
  cells = λ c. 0;
}

-- Thread 4 sleeps until 6000.
abbrev pub napping : Sched
napping = record at_rest {
  lt = λ q.
      if q == 4
      then record idle { sleep_usecs = 6000; state = set_bit sleeping no_flags }
      else idle;
  sleep_tree = (6000, 4) ∷ [];
}

pub at_rest-Agrees : SleepersAgree at_rest
unfolding find_entry
at_rest-Agrees = record {
  sorted = tt;
  flagged_in = λ p h. ground arith;
  in_flagged = λ k p h. absurd (cc h);
}

pub napping-Agrees : SleepersAgree napping
unfolding find_entry
napping-Agrees = record {
  sorted = tt;
  flagged_in = λ p h. ground arith;
  in_flagged = λ k p h. ground arith;
}

-- The key 6000 is taken.
sched_sleep_collides :
    insert_sleeper 2 6000 1 napping.sleep_tree ≡ some (6001, (6000, 4) ∷ (6001, 1) ∷ [])
unfolding insert_sleeper insert_entry
sched_sleep_collides = refl

sched_sleep_begin-Asleep_example :
    (s' : Sched) × (sched_sleep_begin 1 1 napping ≡ some s') × Asleep 1 1 napping s'
sched_sleep_begin-Asleep_example =
    sched_sleep_begin-Asleep 1 1 napping (omega arith) (omega arith) refl napping-Agrees

min_timeout_example :
    ((q : ℕ) → has q sleeping napping ≡ true → min_timeout napping ≤ remaining q napping)
    × Attained napping
min_timeout_example = min_timeout_lem napping napping-Agrees

sleep_wake_roundtrip_example :
    (s' : Sched) × (sched_sleep_begin 1 1 napping ≡ some s')
    × SleepersAgree (sched_sleep_end 1 1 (desched_sleep 1 s'))
    × ((j : ℕ)
        → find_entry j (sched_sleep_end 1 1 (desched_sleep 1 s')).sleep_tree
          ≡ find_entry j napping.sleep_tree)
sleep_wake_roundtrip_example =
    sleep_wake_roundtrip 1 1 napping (omega arith) (omega arith) refl napping-Agrees

abbrev step_state : EventStep → Sched
step_state aborted = at_rest
step_state (returned s) = s
step_state (yielded s) = s

desched_event-sched_event_example :
    Delivered 1 at_rest
      (desched_event 7 ev_read (step_state (sched_event_begin 1 7 ev_read 20 at_rest)))
unfolding sched_event_begin insert_entry sched_sleep_begin insert_sleeper
desched_event-sched_event_example = desched_event-sched_event 1 7 20 ev_read at_rest tt refl
