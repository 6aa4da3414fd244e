-- ===== src/Io/Wakeup.antt =====
-- The wakeup of a worker: _lthread_io_worker and _lthread_io_add of src/lthread_io.c as the steps
-- that their mutexes leave open to interleaving. A wait on a condition variable that nobody signals
-- does not return: its spurious wakeups are left out.
use lthread.Base.{
  ℕ, suc, List, [], ◌∷◌, ◌++◌, ◌≡◌, refl, push_back, append_assoc, append-nil, sym, subst, arith,
}

-- Where the worker is: before the test of its queue, after it found the queue empty and before
-- pthread_cond_wait, or in pthread_cond_wait.
pub data Pc : Type 0 where
  at_test before_wait in_wait : Pc

-- `lthreads`, and how many threads have put themselves there and not yet signalled.
pub record Worker : Type 0 where
  pub pc : Pc
  pub lthreads : List ℕ
  pub unsignalled : ℕ

abbrev pub idle_worker : Worker
idle_worker = record { pc = at_test; lthreads = []; unsignalled = 0 }

-- pthread_cond_signal
abbrev pub signalled : Pc → Pc
signalled at_test = at_test
signalled before_wait = before_wait
signalled in_wait = at_test

-- What happens without a new request.
pub data Progress : Worker → Worker → Type 0 where
  takes :
      {p : ℕ} {ps : List ℕ} {n : ℕ}
      → Progress
          (record { pc = at_test; lthreads = p ∷ ps; unsignalled = n })
          (record { pc = at_test; lthreads = ps; unsignalled = n })
  finds_none :
      {n : ℕ}
      → Progress
          (record { pc = at_test; lthreads = []; unsignalled = n })
          (record { pc = before_wait; lthreads = []; unsignalled = n })
  waits :
      {ps : List ℕ} {n : ℕ}
      → Progress
          (record { pc = before_wait; lthreads = ps; unsignalled = n })
          (record { pc = in_wait; lthreads = ps; unsignalled = n })
  signals :
      {c : Pc} {ps : List ℕ} {n : ℕ}
      → Progress
          (record { pc = c; lthreads = ps; unsignalled = suc n })
          (record { pc = signalled c; lthreads = ps; unsignalled = n })

pub data Step (u : Worker) : Worker → Type 0 where
  asks :
      (p : ℕ)
      → Step u (record u { lthreads = push_back u.lthreads p; unsignalled = suc u.unsignalled })
  goes_on : {v : Worker} → Progress u v → Step u v

pub data Reach (u : Worker) : Worker → Type 0 where
  here : Reach u u
  next : {v w : Worker} → Reach u v → Step v w → Reach u w

abbrev pub stuck : List ℕ → Worker
stuck ps = record { pc = in_wait; lthreads = ps; unsignalled = 0 }

abbrev pub about_to_wait : List ℕ → Worker
about_to_wait ps = record { pc = before_wait; lthreads = ps; unsignalled = 0 }

stuck-final : (ps : List ℕ) {u v : Worker} → Progress u v → u ≡ stuck ps → ⊥
stuck-final ps takes e = ground arith
stuck-final ps finds_none e = ground arith
stuck-final ps waits e = ground arith
stuck-final ps signals e = ground arith

Reach-asks :
    (ps qs : List ℕ)
    → Reach idle_worker (about_to_wait ps)
    → Reach idle_worker (about_to_wait (ps ++ qs))
Reach-asks ps [] r = subst (λ l. Reach idle_worker (about_to_wait l)) (sym (append-nil ps)) r
Reach-asks ps (q ∷ qs) r =
    subst (λ l. Reach idle_worker (about_to_wait l)) (append_assoc ps (q ∷ []) qs)
      (Reach-asks (push_back ps q) qs (next (next r (asks q)) (goes_on signals)))

-- For any requests there is an interleaving after which an I/O worker waits on its condition
-- variable with just these requests in its queue and every signal sent, so that, spurious wakeups
-- aside, no step but a new request is left.
pub requests_lost :
    (ps : List ℕ) → Reach idle_worker (stuck ps) × ((v : Worker) → Progress (stuck ps) v → ⊥)
requests_lost ps = (
  next (Reach-asks [] ps (next here (goes_on finds_none))) (goes_on waits),
  λ v s. stuck-final ps s refl,
)
