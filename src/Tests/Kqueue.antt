-- ===== src/Tests/Kqueue.antt =====
-- The list of changes of the kqueue poller on the model of a kqueue.
use lthread.Base.{◌≡◌, refl, arith, none, some, []}
use lthread.Kqueue.{evfilt_read, Poller, kq_register_rd, kq_clear_rd}
use lthread.Kqueue.Laws.{Registered, adds_nil, kq_register_rd-Registered, clear_unpolled}
use lthread.Kqueue.Model.{model}

abbrev fresh : Poller
fresh = record { poller_fd = λ d g. none; changelist = [] }

kq_register_rd-Registered_example :
    Registered 4096 7 evfilt_read fresh (kq_register_rd 4096 7 fresh)
kq_register_rd-Registered_example =
    kq_register_rd-Registered 4096 7 fresh adds_nil (omega arith) refl

clear_unpolled_example :
    (k' : Poller) × (kq_register_rd 4096 7 fresh ≡ some k') × (kq_clear_rd 7 k' ≡ none)
clear_unpolled_example = clear_unpolled 4096 7 fresh (omega arith) refl
