-- ===== src/Server/Queue/Served.antt =====
-- Jobs are served in the order in which they were accepted, and none is lost, whatever the order of
-- the steps.
use go_ds.Common.{
  ℕ, ◌≡◌, refl, ap, sym, subst, ◌∙◌, true, false, Option, none, some, List, [], ◌∷◌, ◌++◌, length,
  append_assoc, append-nil, arith, Bool-cases, inl, inr, if◌then◌else◌,
}
use go_ds.Server.Queue.{waits, ends, enqueue, dequeue, empty_queue}
use go_ds.Server.Queue.Linked.{
  Holds, Absent, append_job-Holds, dequeue-Holds, dequeue-empty, Holds-unique,
}
use go_ds.Server.Queue.Worker.{
  Work, client_call, worker_dequeue, worker_done, Reach, started, called, dequeued, finished,
  stopped, busy, turns,
}

-- `js` are the jobs that wait
record Ordered (w : Work) (js : List ℕ) : Type 0 where
  pub holds : Holds w.queue js
  pub order : w.accepted ≡ w.served ++ (busy w.running ++ js)
  pub over : w.ended ≡ true → (js ≡ []) × (w.running ≡ none) × (w.stopping ≡ true)

pub empty-Holds : Holds empty_queue []
empty-Holds = record { chain = refl; tail = refl; different = tt; tidy = λ a away. refl }

refused :
    (w : Work) (js : List ℕ) (j : ℕ)
    → Ordered w js
    → w.stopping ≡ true
    → Ordered (client_call w j) js
unfolding client_call enqueue
refused w js j o stop = record {
  holds = subst (λ b. Holds (enqueue b w.queue j).1 js) (sym stop) o.holds;
  order =
      ap (λ b. if (enqueue b w.queue j).0 then w.accepted ++ (j ∷ []) else w.accepted) stop
      ∙ o.order;
  over = o.over;
}

admitted :
    (w : Work) (js : List ℕ) (j : ℕ)
    → Ordered w js
    → w.stopping ≡ false
    → Absent j js
    → Ordered (client_call w j) (js ++ (j ∷ []))
unfolding client_call enqueue
admitted w js j o go out = record {
  holds =
      subst (λ b. Holds (enqueue b w.queue j).1 (js ++ (j ∷ []))) (sym go)
        (append_job-Holds w.queue js j o.holds out);
  order =
      ap (λ b. if (enqueue b w.queue j).0 then w.accepted ++ (j ∷ []) else w.accepted) go
      ∙ (ap (λ x. x ++ (j ∷ [])) o.order
          ∙ (append_assoc w.served (busy w.running ++ js) (j ∷ [])
              ∙ ap (λ x. w.served ++ x) (append_assoc (busy w.running) js (j ∷ []))));
  over = λ ended. let stop = (o.over ended).2 in absurd (ground arith);
}

called-Ordered :
    (w : Work) (js ks : List ℕ) (j : ℕ)
    → Ordered w js
    → Holds w.queue ks
    → Absent j ks
    → (ls : List ℕ) × Ordered (client_call w j) ls
unfolding client_call enqueue
called-Ordered w js ks j o h out = elim (Bool-cases w.stopping) [
  | inl stop ↦ (js, refused w js j o stop)
  | inr go ↦
      let same = Holds-unique w.queue js ks o.holds h in
      (js ++ (j ∷ []), admitted w js j o go (subst (Absent j) (sym same) out))
]

taken-Ordered :
    (w : Work) (j : ℕ) (js : List ℕ)
    → Ordered w (j ∷ js)
    → w.running ≡ none
    → Ordered (worker_dequeue w) js
unfolding worker_dequeue
taken-Ordered w j js o free =
    let (q, e, h) = dequeue-Holds w.stopping w.queue j js o.holds in
    rw (e, worker_dequeue)
      (record {
        holds = h;
        order = o.order ∙ ap (λ r. w.served ++ (busy r ++ (j ∷ js))) free;
        over = λ ended. let none_left = (o.over ended).0 in absurd (ground arith);
      })

dequeued-Ordered :
    (w : Work) (js : List ℕ)
    → Ordered w js
    → w.running ≡ none
    → (ls : List ℕ) × Ordered (worker_dequeue w) ls
unfolding worker_dequeue
dequeued-Ordered w [] o free =
    let e = dequeue-empty w.stopping w.queue o.holds in
    elim (Bool-cases w.stopping) [
      | inl stop ↦
          let e' : dequeue w.stopping w.queue ≡ ends =
            e ∙ ap (λ b. if b then ends else waits) stop in
          (
            [],
            rw (e', worker_dequeue)
                (record { holds = o.holds; order = o.order; over = λ ended. (refl, free, stop) }),
          )
      | inr go ↦
          let e' : dequeue w.stopping w.queue ≡ waits =
            e ∙ ap (λ b. if b then ends else waits) go in
          ([], rw (e', worker_dequeue) o)
    ]
dequeued-Ordered w (j ∷ js) o free = (js, taken-Ordered w j js o free)

finished-Ordered :
    (w : Work) (js : List ℕ) (r : Option ℕ)
    → w.running ≡ r
    → Ordered w js
    → Ordered (worker_done w) js
unfolding worker_done
finished-Ordered w js none e o = rw (e, worker_done) o
finished-Ordered w js (some j) e o =
    rw (e, worker_done)
      (record {
        holds = o.holds;
        order =
            o.order
            ∙ (ap (λ r. w.served ++ (busy r ++ js)) e ∙ sym (append_assoc w.served (j ∷ []) js));
        over = λ ended. ((o.over ended).0, refl, (o.over ended).2);
      })

Reach-Ordered : (w : Work) → Reach w → (js : List ℕ) × Ordered w js
Reach-Ordered _ started =
    ([], record { holds = empty-Holds; order = refl; over = λ e. absurd (ground arith) })
Reach-Ordered _ (called w ks j r h out) =
    let (js, o) = Reach-Ordered w r in called-Ordered w js ks j o h out
Reach-Ordered _ (dequeued w r free going) =
    let (js, o) = Reach-Ordered w r in dequeued-Ordered w js o free
Reach-Ordered _ (finished w r) =
    let (js, o) = Reach-Ordered w r in (js, finished-Ordered w js w.running refl o)
Reach-Ordered _ (stopped w r) =
    let (js, o) = Reach-Ordered w r in
    (
      js,
      record { holds = o.holds; order = o.order; over = λ e. ((o.over e).0, (o.over e).1, refl) },
    )

-- In every state that the threads reach, the jobs accepted are those done, the one that the worker
-- has and those that wait in the linked list, in this order.
pub Reach-served :
    (w : Work)
    → Reach w
    → (js : List ℕ) × Holds w.queue js × (w.accepted ≡ w.served ++ (busy w.running ++ js))
Reach-served w r = let (js, o) = Reach-Ordered w r in (js, o.holds, o.order)

-- Once the worker has ended, every job accepted is done.
pub Reach-drained : (w : Work) → Reach w → w.ended ≡ true → w.served ≡ w.accepted
Reach-drained w r ended =
    let (js, o) = Reach-Ordered w r in
    let (no_jobs, free, _) = o.over ended in
    sym (o.order ∙ (rw (no_jobs, free, append-nil w.served)))

done-accepted : (w : Work) → (worker_done w).accepted ≡ w.accepted
unfolding worker_done
done-accepted w = ground arith

done-running : (w : Work) → (worker_done w).running ≡ none
unfolding worker_done
done-running w = ground arith

dequeue-accepted : (w : Work) → (worker_dequeue w).accepted ≡ w.accepted
unfolding worker_dequeue
dequeue-accepted w = ground arith

turns-served :
    (js : List ℕ) (w : Work)
    → Ordered w js
    → w.running ≡ none
    → (turns (length js) w).served ≡ w.accepted
unfolding turns
turns-served [] w o free = sym (o.order ∙ (rw (free, append-nil w.served)))
turns-served (j ∷ js) w o free =
    let w' = worker_done (worker_dequeue w) in
    let o' =
      finished-Ordered (worker_dequeue w) js (worker_dequeue w).running refl
        (taken-Ordered w j js o free) in
    turns-served js w' o' (done-running (worker_dequeue w))
    ∙ (done-accepted (worker_dequeue w) ∙ dequeue-accepted w)

-- From every state that the threads reach, the worker ends its job, and after as many turns of its
-- loop as there are jobs that wait in the linked list, every job accepted so far is done.
pub Reach-serves :
    (w : Work)
    → Reach w
    → (js : List ℕ) × Holds w.queue js × ((turns (length js) (worker_done w)).served ≡ w.accepted)
Reach-serves w r =
    let (js, o) = Reach-Ordered w r in
    (
      js,
      o.holds,
      turns-served js (worker_done w) (finished-Ordered w js w.running refl o) (done-running w)
          ∙ done-accepted w,
    )
