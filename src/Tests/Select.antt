-- ===== src/Tests/Select.antt =====
-- A select that times out, on a small world.
use lthread.Base.{ℕ, ◌≡◌, refl, false, none, some, [], ◌∷◌, ◌==◌, if◌then◌else◌, arith}
use lthread.Rb.{insert_entry}
use lthread.Rb.Model.{sorted_list}
use lthread.Sched.State.{Sched, expired, raise_bit}
use lthread.Sched.Sleep.{insert_sleeper, sched_busy_sleep_begin, sched_busy_sleep_end}
use lthread.Cond.{cond_wait_begin, cond_wait_end}
use lthread.Chan.State.{same_wait, World, chan_at}
use lthread.Chan.Try.{sel_remove_all_chans}
use lthread.Chan.Select.{
  minus_two, blocks, select_wait, block_select_resumed, join_sendqs, join_recvqs,
}
use lthread.Chan.Queues.{others, Joined, Counted}
use lthread.Chan.Leave.{
  send_lines, recv_lines, waiting, Absent, Waits, sel_remove_all_chans-others, select_timeout,
}
use lthread.Tests.Sched.{at_rest}

-- Selector 9 waits on every channel; selector 7 is to send on channel 1 and to receive from 2.
abbrev plaza : World
plaza = record {
  sched = at_rest;
  chan = λ c. record {
    queue = none;
    closed = false;
    send_count = 1;
    sendq = record { sel = 9; idx = 0 } ∷ [];
    recv_count = 1;
    recvq = record { sel = 9; idx = 0 } ∷ [];
  };
  sel = λ s. record {
    cond = s;
    chans = 1 ∷ 2 ∷ [];
    msgs = 5 ∷ 0 ∷ [];
    wchan_count = 1;
    rchan_count = 1;
    target = none;
  };
}

plaza-Absent_send : Absent 7 (send_lines plaza)
unfolding same_wait
plaza-Absent_send c j = ground arith

plaza-Absent_recv : Absent 7 (recv_lines plaza)
unfolding same_wait
plaza-Absent_recv c j = ground arith

abbrev begun : Sched
begun = elim (cond_wait_begin 7 5 (waiting 7 plaza).sched) [ none ↦ at_rest | some s ↦ s ]

abbrev woken : Sched
woken = raise_bit at_rest.current_lthread expired begun

select_timeout_example :
    (w1 w2 : World) × (select_wait 7 5 plaza ≡ blocks (record w1 { sched = begun }))
    × (block_select_resumed 7 at_rest.current_lthread 5 (record w1 { sched = woken })
        ≡ (minus_two, w2))
    × ((c : ℕ) → send_lines w2 c ≡ send_lines plaza c)
    × ((c : ℕ) → recv_lines w2 c ≡ recv_lines plaza c)
unfolding cond_wait_begin cond_wait_end sched_busy_sleep_begin insert_sleeper insert_entry
    join_recvqs join_sendqs sched_busy_sleep_end
select_timeout_example =
    select_timeout 7 at_rest.current_lthread 5 plaza begun woken
      (cond_wait_end 7 at_rest.current_lthread 5 woken).1 plaza-Absent_send plaza-Absent_recv
      (λ c. refl) (λ c. refl) (λ e. omega arith) (omega arith) refl refl refl

-- Selector 7 has its entries in, after those of selector 9.
abbrev crowded : World
crowded = record plaza {
  chan = λ c. record (plaza.chan c) {
    send_count = if c == 1 then 2 else 1;
    sendq =
        if c == 1
        then record { sel = 9; idx = 0 } ∷ record { sel = 7; idx = 0 } ∷ []
        else record { sel = 9; idx = 0 } ∷ [];
    recv_count = if c == 2 then 2 else 1;
    recvq =
        if c == 2
        then record { sel = 9; idx = 0 } ∷ record { sel = 7; idx = 1 } ∷ []
        else record { sel = 9; idx = 0 } ∷ [];
  };
}

crowded-Joined_send : Joined 7 (λ j. chan_at 7 j crowded) 0 1 (send_lines crowded)
unfolding same_wait
crowded-Joined_send c j = ground arith

crowded-Joined_recv : Joined 7 (λ j. chan_at 7 j crowded) 1 1 (recv_lines crowded)
unfolding same_wait
crowded-Joined_recv c j = ground arith

crowded-Waits : Waits 7 crowded
crowded-Waits = (crowded-Joined_send, crowded-Joined_recv, (λ c. ground arith), λ c. ground arith)

sel_remove_all_chans-others_example :
    ((c : ℕ) → ((sel_remove_all_chans 7 crowded).chan c).sendq ≡ others 7 (crowded.chan c).sendq)
    × ((c : ℕ) → ((sel_remove_all_chans 7 crowded).chan c).recvq ≡ others 7 (crowded.chan c).recvq)
    × Counted (send_lines (sel_remove_all_chans 7 crowded))
    × Counted (recv_lines (sel_remove_all_chans 7 crowded))
sel_remove_all_chans-others_example = sel_remove_all_chans-others 7 crowded crowded-Waits
