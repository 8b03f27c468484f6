-- ===== src/Server/Queue.antt =====
-- ds4_server.c: the queue of jobs (`enqueue`, `dequeue`) between the client threads and the worker
-- (`worker_main`). A job is its address, and `next` is the field of that name. A call holds the
-- mutex from its start to its end, so that calls are steps;
-- `dequeue` clears the successor of its job just behind that, when no other thread knows the job.
pub mod Linked
pub mod Worker
pub mod Served
mod Tests
use go_ds.Common.{ℕ, Bool, true, false, Option, none, some, ◌==◌, if◌then◌else◌}

pub record Queue : Type 0 where
  pub head : Option ℕ
  pub tail : Option ℕ
  pub next : ℕ → Option ℕ

pub data Dequeued : Type 0 where
  -- the queue is empty, and the worker waits for a signal
  waits : Dequeued
  -- the queue is empty, and the server stops
  ends : Dequeued
  takes : ℕ → Queue → Dequeued

unfoldable pub set_next : (ℕ → Option ℕ) → ℕ → Option ℕ → ℕ → Option ℕ
set_next next a n i = if i == a then n else next i

-- behind the test that the server does not stop
unfoldable pub append_job : Queue → ℕ → Queue
append_job q j = elim q.tail [
  | none ↦ record { head = some j; tail = some j; next = q.next }
  | some t ↦ record { head = q.head; tail = some j; next = set_next q.next t (some j) }
]

unfoldable pub enqueue : (stopping : Bool) → Queue → ℕ → Bool × Queue
enqueue stopping q j = if stopping then (false, q) else (true, append_job q j)

abbrev pub tail_behind : Option ℕ → Option ℕ → Option ℕ
tail_behind none tail = none
tail_behind (some h) tail = tail

unfoldable pub dequeue : (stopping : Bool) → Queue → Dequeued
dequeue stopping q = elim q.head [
  | none ↦ if stopping then ends else waits
  | some j ↦ takes j (record {
    head = q.next j;
    tail = tail_behind (q.next j) q.tail;
    next = set_next q.next j none;
  })
]

abbrev pub empty_queue : Queue
empty_queue = record { head = none; tail = none; next = λ j. none }
