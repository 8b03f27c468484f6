-- ===== src/Server/Queue/Linked.antt =====
-- The linked list behind the queue, against a plain list.
use go_ds.Common.{
  ℕ, ◌≡◌, refl, ap, sym, subst, ◌∙◌, Bool, true, false, Option, none, some, List, [], ◌∷◌, ◌++◌,
  All, ◌==◌, if◌then◌else◌, arith, Bool-cases, Option-cases, inl, inr,
}
use go_ds.Server.Queue.{Queue, waits, ends, takes, set_next, append_job, tail_behind, dequeue}

-- The pointers lead through the jobs of the list and end behind the last one.
abbrev pub Chain : (ℕ → Option ℕ) → Option ℕ → List ℕ → Type 0
Chain next p [] = p ≡ none
Chain next p (j ∷ js) = (p ≡ some j) × Chain next (next j) js

abbrev pub last_job : List ℕ → Option ℕ
last_job [] = none
last_job (j ∷ []) = some j
last_job (j ∷ k ∷ js) = last_job (k ∷ js)

abbrev pub Absent : ℕ → List ℕ → Type 0
Absent j js = All (λ k. (k == j) ≡ false) js

abbrev pub Different : List ℕ → Type 0
Different [] = Unit {0}
Different (j ∷ js) = Absent j js × Different js

pub record Holds (q : Queue) (js : List ℕ) : Type 0 where
  pub chain : Chain q.next q.head js
  pub tail : q.tail ≡ last_job js
  pub different : Different js
  -- a job that does not wait has no successor
  pub tidy : (a : ℕ) → Absent a js → q.next a ≡ none

-- an assignment to a job that is not in the list
Chain-other :
    (next : ℕ → Option ℕ) (a : ℕ) (n : Option ℕ) (p : Option ℕ) (js : List ℕ)
    → Absent a js
    → Chain next p js
    → Chain (set_next next a n) p js
unfolding set_next
Chain-other next a n p [] out c = c
Chain-other next a n p (j ∷ js) out c = (c.0, rw out.0 (Chain-other next a n (next j) js out.1 c.1))

last_job-Absent :
    (k : ℕ) (js : List ℕ) (t : ℕ) → Absent k js → last_job js ≡ some t → (k == t) ≡ false
last_job-Absent k [] t out last = absurd (ground arith)
last_job-Absent k (j ∷ []) t out last = let apart : (j == k) ≡ false = out.0 in ground arith
last_job-Absent k (j ∷ l ∷ js) t out last = last_job-Absent k (l ∷ js) t out.1 last

last_none : (k : ℕ) (js : List ℕ) → last_job (k ∷ js) ≡ none → ⊥
last_none k [] h = ground arith
last_none k (l ∷ js) h = last_none l js h

Absent-append :
    (k : ℕ) (js : List ℕ) (j : ℕ) → Absent k js → (k == j) ≡ false → Absent k (js ++ (j ∷ []))
Absent-append k [] j out apart = (ground arith, tt)
Absent-append k (l ∷ js) j out apart = (out.0, Absent-append k js j out.1 apart)

-- the last job gets a successor
Chain-append :
    (next : ℕ → Option ℕ) (p : Option ℕ) (js : List ℕ) (t j : ℕ)
    → Different js
    → Absent j js
    → last_job js ≡ some t
    → next j ≡ none
    → Chain next p js
    → Chain (set_next next t (some j)) p (js ++ (j ∷ []))
unfolding set_next
Chain-append next p [] t j d out last fresh c = absurd (ground arith)
Chain-append next p (k ∷ []) t j d out last fresh c =
    let same : k ≡ t = ground arith in
    let here : (k == t) ≡ true = ground arith in
    let apart : (k == j) ≡ false = out.0 in
    let there : (j == t) ≡ false = ground arith in (c.0, (rw here, rw (there, fresh)))
Chain-append next p (k ∷ l ∷ js) t j d out last fresh c =
    let apart = last_job-Absent k (l ∷ js) t d.0 last in
    (c.0, rw apart (Chain-append next (next k) (l ∷ js) t j d.1 out.1 last fresh c.1))

last_job-append : (js : List ℕ) (j : ℕ) → last_job (js ++ (j ∷ [])) ≡ some j
last_job-append [] j = refl
last_job-append (k ∷ []) j = refl
last_job-append (k ∷ l ∷ js) j = last_job-append (l ∷ js) j

Different-append : (js : List ℕ) (j : ℕ) → Different js → Absent j js → Different (js ++ (j ∷ []))
Different-append [] j d out = (tt, tt)
Different-append (k ∷ js) j d out =
    (Absent-append k js j d.0 out.0, Different-append js j d.1 out.1)

Absent-init :
    (a : ℕ) (js : List ℕ) (j : ℕ) → Absent a (js ++ (j ∷ [])) → Absent a js × ((j == a) ≡ false)
Absent-init a [] j out = (tt, out.0)
Absent-init a (k ∷ js) j out = let (rest, last) = Absent-init a js j out.1 in ((out.0, rest), last)

-- The queue's list with a new job at its end.
pub append_job-Holds :
    (q : Queue) (js : List ℕ) (j : ℕ)
    → Holds q js
    → Absent j js
    → Holds (append_job q j) (js ++ (j ∷ []))
unfolding append_job set_next
append_job-Holds q [] j h out =
    let end = h.tail in
    rw (end, append_job)
      (record {
        chain = (refl, h.tidy j tt);
        tail = refl;
        different = (tt, tt);
        tidy = λ a away. h.tidy a tt;
      })
append_job-Holds q (k ∷ js) j h out = elim (Option-cases q.tail) [
  | inl no_tail ↦ absurd (last_none k js (sym h.tail ∙ no_tail))
  | inr (t, is_tail) ↦
      let last = sym h.tail ∙ is_tail in
      rw (is_tail, append_job)
        (record {
          chain =
              Chain-append q.next q.head (k ∷ js) t j h.different out last (h.tidy j out) h.chain;
          tail = sym (last_job-append (k ∷ js) j);
          different = Different-append (k ∷ js) j h.different out;
          tidy = λ a away.
              let (before, _) = Absent-init a (k ∷ js) j away in
              rw (last_job-Absent a (k ∷ js) t before last) (h.tidy a before);
        })
]

tail_behind_next :
    (next : ℕ → Option ℕ) (j : ℕ) (js : List ℕ)
    → Chain next (next j) js
    → tail_behind (next j) (last_job (j ∷ js)) ≡ last_job js
tail_behind_next next j [] c = rw c
tail_behind_next next j (k ∷ js) c = rw c.0

-- The first job of the queue's list is taken off.
pub dequeue-Holds :
    (stopping : Bool) (q : Queue) (j : ℕ) (js : List ℕ)
    → Holds q (j ∷ js)
    → (q' : Queue) × (dequeue stopping q ≡ takes j q') × Holds q' js
unfolding dequeue set_next
dequeue-Holds stopping q j js h = (
  record { head = q.next j; tail = tail_behind (q.next j) q.tail; next = set_next q.next j none },
  rw (h.chain.0, dequeue),
  record {
    chain = Chain-other q.next j none (q.next j) js h.different.0 h.chain.1;
    tail = ap (tail_behind (q.next j)) h.tail ∙ tail_behind_next q.next j js h.chain.1;
    different = h.different.1;
    tidy = λ a away. elim (Bool-cases (a == j)) [
      | inl same ↦ rw same
      | inr other ↦
          let turned : (j == a) ≡ false = ground arith in rw other (h.tidy a (turned, away))
    ];
  },
)

pub dequeue-empty :
    (stopping : Bool) (q : Queue)
    → Holds q []
    → dequeue stopping q ≡ (if stopping then ends else waits)
unfolding dequeue
dequeue-empty stopping q h = rw (h.chain, dequeue)

Chain-unique :
    (next : ℕ → Option ℕ) (p : Option ℕ) (js ks : List ℕ)
    → Chain next p js
    → Chain next p ks
    → js ≡ ks
Chain-unique next p [] [] c d = refl
Chain-unique next p [] (k ∷ ks) c d = let e = d.0 in absurd (ground arith)
Chain-unique next p (j ∷ js) [] c d = let e = c.0 in absurd (ground arith)
Chain-unique next p (j ∷ js) (k ∷ ks) c d =
    let a = c.0 in
    let b = d.0 in
    let same : k ≡ j = ground arith in
    let d' : Chain next (next j) ks = subst (λ x. Chain next (next x) ks) same d.1 in
    let rest = Chain-unique next (next j) js ks c.1 d' in ground arith

-- A queue holds one list.
pub Holds-unique : (q : Queue) (js ks : List ℕ) → Holds q js → Holds q ks → js ≡ ks
Holds-unique q js ks h k = Chain-unique q.next q.head js ks h.chain k.chain
