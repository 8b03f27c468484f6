-- ===== src/Server/Queue/Tests.antt =====
-- Tests and examples of the queue: three jobs, of which the worker takes one before the last comes.
use go_ds.Common.{ℕ, ◌≡◌, refl, true, false, none, some, List, [], length, ◌++◌}
use go_ds.Server.Queue.{Queue, takes, set_next, append_job, enqueue, dequeue, empty_queue}
use go_ds.Server.Queue.Linked.{Holds}
use go_ds.Server.Queue.Worker.{
  Work, idle, client_call, worker_dequeue, worker_done, Reach, started, called, dequeued, finished,
  stopped, busy, turns,
}
use go_ds.Server.Queue.Served.{Reach-served, Reach-drained, Reach-serves, empty-Holds}

abbrev two : Queue
two = append_job (append_job empty_queue 5) 6

-- the first of two jobs is taken, and the list is the second alone
two_taken :
    dequeue false two
    ≡ takes 5 (record { head = some 6; tail = some 6; next = set_next two.next 5 none })
unfolding dequeue append_job set_next
two_taken = refl

abbrev with_job : Work
with_job = client_call idle 5

with_job-Reach : Reach with_job
with_job-Reach = called idle [] 5 started empty-Holds tt

abbrev running_job : Work
running_job = worker_dequeue with_job

free : with_job.running ≡ none
unfolding client_call
free = refl

not_ended : with_job.ended ≡ false
unfolding client_call
not_ended = refl

running_job-Reach : Reach running_job
running_job-Reach = dequeued with_job with_job-Reach free not_ended

abbrev over : Work
over = worker_dequeue (record (worker_done running_job) { stopping = true })

done_free : (worker_done running_job).running ≡ none
unfolding worker_done worker_dequeue client_call enqueue dequeue append_job
done_free = refl

done_not_ended : (worker_done running_job).ended ≡ false
unfolding worker_done worker_dequeue client_call enqueue dequeue append_job
done_not_ended = refl

over-Reach : Reach over
over-Reach =
    dequeued (record (worker_done running_job) { stopping = true })
      (stopped (worker_done running_job) (finished running_job running_job-Reach)) done_free
      done_not_ended

over_ended : over.ended ≡ true
unfolding worker_done worker_dequeue client_call enqueue dequeue append_job
over_ended = refl

Reach-served_example :
    (js : List ℕ) × Holds running_job.queue js
    × (running_job.accepted ≡ running_job.served ++ (busy running_job.running ++ js))
Reach-served_example = Reach-served running_job running_job-Reach

Reach-drained_example : over.served ≡ over.accepted
Reach-drained_example = Reach-drained over over-Reach over_ended

Reach-serves_example :
    (js : List ℕ) × Holds running_job.queue js
    × ((turns (length js) (worker_done running_job)).served ≡ running_job.accepted)
Reach-serves_example = Reach-serves running_job running_job-Reach
