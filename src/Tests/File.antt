-- ===== src/Tests/File.antt =====
-- A file of ten bytes that is sent on a socket which takes one byte and is then not ready, twice,
-- behind three bytes of headers; a header pointer stands for their number.
use lthread.Base.{ℕ, zero, suc, ◌+◌, ◌≡◌, ◌<◌, refl, arith, min}
use lthread.Rb.Model.{sorted_list}
use lthread.Sched.State.{Sched}
use lthread.Socket.Wait.{eagain, Answer, returned_n, error}
use lthread.Socket.File.{sendfile}
use lthread.Socket.File.Laws.{Documented, FileResult, sendfile_oversends}
use lthread.Tests.Sched.{at_rest}

-- how often the socket is not ready, and the bytes that are gone
abbrev Line : Type 0
Line = ℕ × ℕ

abbrev clogged : ℕ → ℕ → ℕ → Line → (Answer × ℕ) × Line
clogged h off n (zero, g) = ((returned_n 0, h + n), (0, g + (h + n)))
clogged h off n (suc c, g) = ((error eagain, min 1 n), (c, g + min 1 n))

clogged-Documented : Documented clogged (λ h. h) (λ k. k.1) (λ k. k.0)
clogged-Documented = record { says = says; all_sent = all_sent; calmer = calmer }
  where
    says : (h off n : ℕ) (k : Line) → (clogged h off n k).1.1 ≡ k.1 + (clogged h off n k).0.1
    says h off n (zero, g) = refl
    says h off n (suc c, g) = refl

    all_sent :
        (h off n : ℕ) (k : Line) (r : ℕ)
        → 0 < n
        → (clogged h off n k).0.0 ≡ returned_n r
        → (r ≡ 0) × ((clogged h off n k).0.1 ≡ h + n)
    all_sent h off n (zero, g) r pos e = (ground (arith, e), refl)
    all_sent h off n (suc c, g) r pos e = absurd (ground (arith, e))

    calmer :
        (h off n : ℕ) (k : Line)
        → (clogged h off n k).0.0 ≡ error eagain
        → (clogged h off n k).1.0 < k.0
    calmer h off n (zero, g) e = absurd (ground (arith, e))
    calmer h off n (suc c, g) e = omega arith

abbrev undisturbed : Sched → Line → Sched × Line
undisturbed s k = (s, k)

sendfile_oversends_example :
    FileResult undisturbed 4 3
      (λ k. k.1)
      14
      (sendfile undisturbed 4 3 clogged 10 3 5 100 at_rest (2, 0))
sendfile_oversends_example =
    sendfile_oversends undisturbed 4 3 clogged (λ h. h) (λ k. k.1) (λ k. k.0) 10 3 (omega arith)
      clogged-Documented (λ t j. (refl, omega arith)) 4 100 1 at_rest (2, 0) (1, 1) (omega arith)
      refl
