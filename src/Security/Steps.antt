-- ===== src/Security/Steps.antt =====
-- What holds of the approval of connections over every interleaving of the threads.
use air_show.Prelude.{
  ◌⊎◌, ℕ, ◌≡◌, Bool, true, false, List, [], ◌∷◌, some, if◌then◌else◌, ltb, ◌==◌, All, arith,
  Bool-cases, Option-cases, inl, inr,
}
use air_show.Settings.{Text, AppSettings}
use air_show.Security.{
  ApprovalRequest, Manager, Told, admitted, returned, called_back, has, request, set_request,
  admits, check_connection, run_queued, wake, check_connection_async, resolve_approval, Event, call,
  call_async, run, waking, answer, configure, apply, history, fresh,
}

-- The requests that the user has approved, latest first, `seen` those before the events.
abbrev pub approve : List ℕ → Event → List ℕ
approve seen (answer id b) = if b then id ∷ seen else seen
approve seen (call _ _ _ _) = seen
approve seen (call_async _ _) = seen
approve seen run = seen
approve seen (waking _) = seen
approve seen (configure _) = seen

abbrev pub approvals : List ℕ → List Event → List ℕ
approvals seen [] = seen
approvals seen (e ∷ es) = approvals (approve seen e) es

-- An answer of "yes" after a prompt stands for a request that the user approved.
abbrev pub IsGranted : List ℕ → Told → Type 0
IsGranted approved (admitted id) = Unit
IsGranted approved (returned id b) = b ≡ true → has approved id ≡ true
IsGranted approved (called_back id b) = b ≡ true → has approved id ≡ true

request-set_request :
    (rs : List (ℕ × ApprovalRequest)) (id j : ℕ) (v r : ApprovalRequest)
    → request (set_request rs id v) j ≡ some r
    → ((j ≡ id) × (r ≡ v)) ⊎ (request rs j ≡ some r)
request-set_request [] id j v r h = absurd (ground arith)
request-set_request ((k, x) ∷ rs) id j v r h = ground (arith, request-set_request rs id j v r)

record Inv (approved : List ℕ) (m : Manager) : Type 0 where
  marked :
      (id : ℕ) (r : ApprovalRequest)
      → request m.requests id ≡ some r
      → r.approved ≡ true
      → has approved id ≡ true
  granted : All (IsGranted approved) m.told

wake-Inv : (approved : List ℕ) (id : ℕ) (m : Manager) → Inv approved m → Inv approved (wake id m)
unfolding wake
wake-Inv approved id m i = elim (Option-cases (request m.requests id)) [
  | inl e ↦ rw (e, wake) i
  | inr (r, e) ↦ elim (Bool-cases (ltb 0 r.semaphore)) [
    | inr z ↦
        rw (e, wake)
          (rw z (record { marked = i.marked; granted = (λ f. absurd (ground arith), i.granted) }))
    | inl z ↦
        rw (e, wake)
          (rw z (record {
            marked = λ j x h a. elim (request-set_request m.requests id j _ x h) [
              | inl (p, q) ↦ ground (arith, i.marked id r)
              | inr p ↦ i.marked j x p a
            ];
            granted = (λ f. i.marked id r e f, i.granted);
          }))
  ]
]

All-IsGranted-more :
    (x : ℕ) (approved : List ℕ) (told : List Told)
    → All (IsGranted approved) told
    → All (IsGranted (x ∷ approved)) told
All-IsGranted-more x approved [] h = tt
All-IsGranted-more x approved (admitted id ∷ told) h = (tt, All-IsGranted-more x approved told h.1)
All-IsGranted-more x approved (returned id b ∷ told) h =
    (λ e. ground (arith, h.0 e), All-IsGranted-more x approved told h.1)
All-IsGranted-more x approved (called_back id b ∷ told) h =
    (λ e. ground (arith, h.0 e), All-IsGranted-more x approved told h.1)

Inv-more : (x : ℕ) (approved : List ℕ) (m : Manager) → Inv approved m → Inv (x ∷ approved) m
Inv-more x approved m i = record {
  marked = λ id r h a. ground (arith, i.marked id r h a);
  granted = All-IsGranted-more x approved m.told i.granted;
}

-- The answer as such: with the identifier counted as approved if the answer is "yes".
answer-Inv :
    (approved : List ℕ) (id : ℕ) (b : Bool) (m : Manager)
    → (b ≡ true → has approved id ≡ true)
    → Inv approved m
    → Inv approved (resolve_approval id b m)
unfolding resolve_approval
answer-Inv approved id b m yes_counts i = elim (Bool-cases (has m.pending id)) [
  | inl p ↦ elim (Option-cases (request m.requests id)) [
    | inl e ↦ rw p (rw (e, resolve_approval) i)
    | inr (r, e) ↦ rw p (
        rw e (record {
          marked = λ j x h a. elim (request-set_request m.requests id j _ x h) [
            | inl (same, q) ↦ ground (arith, yes_counts)
            | inr old ↦ i.marked j x old a
          ];
          granted = i.granted;
        }))
  ]
  | inr p ↦ elim (Bool-cases (has m.async id)) [
    | inl q ↦ rw p (rw q (record { marked = i.marked; granted = (yes_counts, i.granted) }))
    | inr q ↦ rw p (rw q i)
  ]
]

call-Inv :
    (approved : List ℕ) (id : ℕ) (name protocol device : Text) (m : Manager)
    → Inv approved m
    → Inv approved (check_connection id name protocol device m)
unfolding check_connection
call-Inv approved id name protocol device m i = elim (Bool-cases (admits m.settings device)) [
  | inl e ↦ rw e (record { marked = i.marked; granted = (tt, i.granted) })
  | inr e ↦ rw e (record {
    marked = λ j r h a. elim (Bool-cases (j == id)) [
      | inl same ↦ absurd (ground arith)
      | inr other ↦ i.marked j r (ground arith) a
    ];
    granted = i.granted;
  })
]

call_async-Inv :
    (approved : List ℕ) (id : ℕ) (device : Text) (m : Manager)
    → Inv approved m
    → Inv approved (check_connection_async id device m)
unfolding check_connection_async
call_async-Inv approved id device m i = elim (Bool-cases (admits m.settings device)) [
  | inl e ↦ rw e (record { marked = i.marked; granted = (tt, i.granted) })
  | inr e ↦ rw e (record { marked = i.marked; granted = i.granted })
]

run_queued-Inv :
    (approved : List ℕ) (m : Manager) (queue : List ℕ)
    → Inv approved m
    → Inv approved (run_queued m queue)
unfolding run_queued
run_queued-Inv approved m [] i = i
run_queued-Inv approved m (id ∷ queue) i = record { marked = i.marked; granted = i.granted }

apply-Inv :
    (approved : List ℕ) (e : Event) (m : Manager)
    → Inv approved m
    → Inv (approve approved e) (apply e m)
unfolding apply
apply-Inv approved (call id name protocol device) m i =
    call-Inv approved id name protocol device m i
apply-Inv approved (call_async id device) m i = call_async-Inv approved id device m i
apply-Inv approved run m i = run_queued-Inv approved m m.queued i
apply-Inv approved (waking id) m i = wake-Inv approved id m i
apply-Inv approved (answer id true) m i =
    answer-Inv (id ∷ approved) id true m (λ _. ground arith) (Inv-more id approved m i)
apply-Inv approved (answer id false) m i = answer-Inv approved id false m (λ e. cc) i
apply-Inv approved (configure s) m i = record { marked = i.marked; granted = i.granted }

history-Inv :
    (approved : List ℕ) (es : List Event) (m : Manager)
    → Inv approved m
    → Inv (approvals approved es) (history m es)
unfolding history
history-Inv approved [] m i = i
history-Inv approved (e ∷ es) m i =
    history-Inv (approve approved e) es (apply e m) (apply-Inv approved e m i)

-- Over every interleaving of calls, queued prompts, wake-ups, timeouts, answers and changes of the
-- settings: whenever a caller is told "yes" after a prompt, by the return value or by its callback,
-- the user has approved that very request.
pub prompted_yes_needs_approval :
    (s : AppSettings) (es : List Event)
    → All (IsGranted (approvals [] es)) (history (fresh s) es).told
prompted_yes_needs_approval s es =
    (history-Inv [] es (fresh s)
      (record { marked = λ id r h. absurd (ground arith); granted = tt })).granted
