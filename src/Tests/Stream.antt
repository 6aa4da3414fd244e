-- ===== src/Tests/Stream.antt =====
-- A buffered channel on small inputs.
use lthread.Base.{◌≡◌, refl, false, none, some, [], ◌∷◌, arith}
use lthread.Rb.Model.{sorted_list}
use lthread.Fifo.{Queue}
use lthread.Fifo.Bounds.{IsValid}
use lthread.Chan.State.{World}
use lthread.Chan.Buffer.{Buffers}
use lthread.Chan.Refine.{
  offer, take, sent, full, stalled, received, stream, run_chan, run_chan_refines,
}
use lthread.Tests.Sched.{at_rest}

-- It holds 8 and then 9.
abbrev two_of_three : Queue
two_of_three = record { size = 2; next = 2; capacity = 3; slots = 9 ∷ 7 ∷ 8 ∷ [] }

two_of_three-IsValid : IsValid two_of_three
two_of_three-IsValid = omega arith

abbrev market : World
market = record {
  sched = at_rest;
  chan = λ c. record {
    queue = some two_of_three;
    closed = false;
    send_count = 0;
    sendq = [];
    recv_count = 0;
    recvq = [];
  };
  sel = λ s. record {
    cond = s;
    chans = [];
    msgs = [];
    wchan_count = 0;
    rchan_count = 0;
    target = none;
  };
}

market-Buffers : Buffers 1 two_of_three market
market-Buffers = record { queue = refl; opened = refl; no_sender = refl; no_receiver = refl }

run_chan_refines_example :
    run_chan 7 1 market (offer 1 ∷ offer 2 ∷ take ∷ take ∷ take ∷ take ∷ offer 3 ∷ [])
    ≡ sent ∷ full ∷ received 8 ∷ received 9 ∷ received 1 ∷ stalled ∷ []
unfolding stream
run_chan_refines_example =
    run_chan_refines 7 1 two_of_three market
      (offer 1 ∷ offer 2 ∷ take ∷ take ∷ take ∷ take ∷ offer 3 ∷ []) two_of_three-IsValid
      market-Buffers
