-- ===== src/Server/Queue/Worker.antt =====
-- ds4_server.c: the loop of `worker_main`, and `client_main` where it enqueues a job, as steps that
-- the threads take in any order.
use go_ds.Common.{
  ℕ, zero, suc, ◌≡◌, Bool, true, false, Option, none, some, List, [], ◌∷◌, ◌++◌, if◌then◌else◌,
}
use go_ds.Server.Queue.{Queue, waits, ends, takes, enqueue, dequeue, empty_queue}
use go_ds.Server.Queue.Linked.{Holds, Absent}

-- `running` is the job of the worker between its `dequeue` and the signal that it is done. The jobs
-- accepted and those done are recorded in their order.
pub record Work : Type 0 where
  pub queue : Queue
  pub stopping : Bool
  pub running : Option ℕ
  pub ended : Bool
  pub accepted : List ℕ
  pub served : List ℕ

abbrev pub idle : Work
idle = record {
  queue = empty_queue;
  stopping = false;
  running = none;
  ended = false;
  accepted = [];
  served = [];
}

-- `enqueue` in a client thread, which answers 503 where it gives false
unfoldable pub client_call : Work → ℕ → Work
client_call w j =
    let r = enqueue w.stopping w.queue j in
    (record w { queue = r.1; accepted = if r.0 then w.accepted ++ (j ∷ []) else w.accepted })

-- a turn of the loop of `worker_main`, up to `dequeue`
unfoldable pub worker_dequeue : Work → Work
worker_dequeue w = elim (dequeue w.stopping w.queue) [
  | waits ↦ w
  | ends ↦ (record w { ended = true })
  | takes j q ↦ (record w { queue = q; running = some j })
]

-- the rest of the turn
unfoldable pub worker_done : Work → Work
worker_done w = elim w.running [
  | none ↦ w
  | some j ↦ (record w { running = none; served = w.served ++ (j ∷ []) })
]

-- The steps of the threads in any order. A job that a client enqueues does not wait already; the
-- worker takes a job where it has none, until it has ended.
pub data Reach : Work → Type 0 where
  started : Reach idle
  called :
      (w : Work) (js : List ℕ) (j : ℕ)
      → Reach w
      → Holds w.queue js
      → Absent j js
      → Reach (client_call w j)
  dequeued : (w : Work) → Reach w → w.running ≡ none → w.ended ≡ false → Reach (worker_dequeue w)
  finished : (w : Work) → Reach w → Reach (worker_done w)
  stopped : (w : Work) → Reach w → Reach (record w { stopping = true })

abbrev pub busy : Option ℕ → List ℕ
busy none = []
busy (some j) = j ∷ []

-- turns of the worker's loop, while no other thread takes a step
unfoldable pub turns : ℕ → Work → Work
turns zero w = w
turns (suc n) w = turns n (worker_done (worker_dequeue w))
