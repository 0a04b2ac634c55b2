-- ===== src/Execution/Events/Laws.antt =====
-- The events of each job are numbered 1, 2, 3 and so on, without gaps.
use moatazalasrai.Prelude.{
  ℕ, suc, ◌+◌, ◌≡◌, refl, ◌∙◌, List, [], ◌∷◌, ◌++◌, Bool, String, max, max_of, select_rows, length,
  arith, Bool-cases, inl, inr, if◌then◌else◌,
}
use moatazalasrai.Execution.Schema.{Db, Event, Level}
use moatazalasrai.Execution.Db.{of_job, next_sequence, insert_event}

-- The sequence numbers of a list of events count up from a number.
abbrev pub IsCounted : ℕ → List Event → Type 0
IsCounted n [] = Unit
IsCounted n (e ∷ es) = (e.sequence ≡ n) × IsCounted (suc n) es

-- The events of a job are numbered from 1, in the order in which they were inserted.
abbrev pub IsNumbered : ℕ → List Event → Type 0
IsNumbered job events = IsCounted 1 (select_rows (of_job job) events)

-- The numbering of every job is kept.
abbrev pub LogsKept : List Event → List Event → Type 0
LogsKept before after = (job : ℕ) → IsNumbered job before → IsNumbered job after

max_of-IsCounted :
    (n : ℕ) (es : List Event)
    → IsCounted (suc n) es
    → max (max_of (λ (e : Event). e.sequence) es) n ≡ n + length es
unfolding max_of
max_of-IsCounted n [] h = omega arith
max_of-IsCounted n (e ∷ es) h = omega (arith, h.0, max_of-IsCounted (suc n) es h.1)

IsCounted-append :
    (n : ℕ) (es : List Event) (e : Event)
    → IsCounted n es
    → e.sequence ≡ n + length es
    → IsCounted n (es ++ e ∷ [])
IsCounted-append n [] e h s = (omega arith, tt)
IsCounted-append n (x ∷ es) e h s = (h.0, IsCounted-append (suc n) es e h.1 (omega arith))

select_rows-append :
    (p : Event → Bool) (es : List Event) (e : Event)
    → select_rows p (es ++ e ∷ []) ≡ (if p e then select_rows p es ++ e ∷ [] else select_rows p es)
unfolding select_rows
select_rows-append p [] e = refl
select_rows-append p (x ∷ es) e = ground (arith, select_rows-append p es e)

-- The number of a new event follows the numbers that are there.
next_sequence-IsNumbered :
    (job : ℕ) (events : List Event)
    → IsNumbered job events
    → next_sequence job events ≡ 1 + length (select_rows (of_job job) events)
unfolding next_sequence
next_sequence-IsNumbered job events h =
    omega (arith, max_of-IsCounted 0 (select_rows (of_job job) events) h)

append-IsNumbered :
    (e : Event) (k : ℕ) (events : List Event)
    → e.sequence ≡ next_sequence e.job events
    → IsNumbered k events
    → IsNumbered k (events ++ e ∷ [])
append-IsNumbered e k events s h = elim (Bool-cases (of_job k e)) [
  | inl own ↦
      let same_job : e.job ≡ k = ground arith in
      rw (select_rows-append (of_job k) events e, own)
        (IsCounted-append 1 (select_rows (of_job k) events) e h
          (s ∙ rw same_job (next_sequence-IsNumbered k events h)))
  | inr foreign ↦ rw (select_rows-append (of_job k) events e, foreign) h
]

-- The next event of a job gets the number after the last, and no other log is changed.
pub insert_event-LogsKept :
    (job : ℕ) (kind source : String) (level : Level) (db : Db)
    → LogsKept db.events (insert_event job kind source level db).events
unfolding insert_event
insert_event-LogsKept job kind source level db k h = append-IsNumbered _ k db.events refl h
