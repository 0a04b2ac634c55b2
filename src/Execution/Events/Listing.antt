-- ===== src/Execution/Events/Listing.antt =====
-- `listExecutionEvents` of lib/execution/event-service.ts on a log that is numbered without gaps.
use moatazalasrai.Prelude.{
  ℕ, zero, suc, ltb→lt, ◌+◌, ◌-◌, ◌≡◌, ◌≤◌, ◌<◌, refl, sym, ap, ◌∙◌, subst, List, [], ◌∷◌, Option,
  some, Bool, true, ◌&&◌, ltb, min, max, or_else, select_rows, take, length, arith, Bool-cases, inl,
  inr,
}
use moatazalasrai.Execution.Schema.{Db, Event, Job}
use moatazalasrai.Execution.Db.{of_job, find_job}
use moatazalasrai.Execution.Events.{insert_by_sequence, sort_by_sequence, list_events}
use moatazalasrai.Execution.Events.Laws.{IsCounted, IsNumbered}

abbrev is_after : ℕ → Event → Bool
is_after a e = ltb a e.sequence

select_rows-&& :
    (p q : Event → Bool) (es : List Event)
    → select_rows (λ e. p e && q e) es ≡ select_rows q (select_rows p es)
unfolding select_rows
select_rows-&& p q [] = refl
select_rows-&& p q (e ∷ es) = ground (arith, select_rows-&& p q es)

select_rows-all :
    (a n : ℕ) (es : List Event) → IsCounted n es → a < n → select_rows (is_after a) es ≡ es
unfolding select_rows
select_rows-all a n [] h g = refl
select_rows-all a n (e ∷ es) h g =
    let later : ltb a e.sequence ≡ true = ground (arith, h.0) in
    rw (later, select_rows-all a (suc n) es h.1 (omega arith)) refl

-- What is left of a log after a number, and how much.
after-IsCounted :
    (a n : ℕ) (es : List Event)
    → IsCounted n es
    → n ≤ suc a
    → IsCounted (suc a) (select_rows (is_after a) es)
      × (length (select_rows (is_after a) es) ≡ n + length es - suc a)
unfolding select_rows
after-IsCounted a n [] h g = (tt, omega arith)
after-IsCounted a n (e ∷ es) h g = elim (Bool-cases (ltb a e.sequence)) [
  | inl later ↦
      let all = select_rows-all a (suc n) es h.1 (omega (arith, h.0, ltb→lt _ _ later)) in
      let first : n ≡ suc a = ground (arith, h.0) in
      rw (later, all)
        ((h.0 ∙ first, subst (λ k. IsCounted (suc k) es) first h.1), omega (arith, first))
  | inr early ↦
      let (counted, size) = after-IsCounted a (suc n) es h.1 (ground (arith, h.0)) in
      rw early (counted, omega (arith, size))
]

insert-first :
    (e : Event) (es : List Event) → IsCounted (suc e.sequence) es → insert_by_sequence e es ≡ e ∷ es
unfolding insert_by_sequence
insert-first e [] h = refl
insert-first e (x ∷ es) h =
    let lower : ltb e.sequence x.sequence ≡ true = ground (arith, h.0) in rw lower refl

sort-IsCounted : (n : ℕ) (es : List Event) → IsCounted n es → sort_by_sequence es ≡ es
unfolding sort_by_sequence
sort-IsCounted n [] h = refl
sort-IsCounted n (e ∷ es) h =
    rw (sort-IsCounted (suc n) es h.1)
      (insert-first e es (subst (λ k. IsCounted (suc k) es) (sym h.0) h.1))

take-IsCounted :
    (k n : ℕ) (es : List Event)
    → IsCounted n es
    → IsCounted n (take k es) × (length (take k es) ≡ min k (length es))
take-IsCounted zero n es h = (tt, omega arith)
take-IsCounted (suc k) n [] h = (tt, omega arith)
take-IsCounted (suc k) n (e ∷ es) h =
    let (counted, size) = take-IsCounted k (suc n) es h.1 in ((h.0, counted), omega (arith, size))

-- A page of a log that is numbered without gaps holds exactly the next events after the given
-- number, in order: it starts at the next number and counts on, up to the limit (1 to 500, 200 if
-- none is given) or to the end of the log. So a client that asks for what comes after the last
-- number that it has seen misses nothing.
pub list_events-IsCounted :
    (organization job : ℕ) (after limit : Option ℕ) (db : Db) {found : Job}
    → find_job organization job db ≡ some found
    → IsNumbered job db.events
    → IsCounted (suc (or_else after 0)) (list_events organization job after limit db)
      × (length (list_events organization job after limit db)
          ≡ min
              (min (max (or_else limit 200) 1) 500)
              (length (select_rows (of_job job) db.events) - or_else after 0))
unfolding list_events
list_events-IsCounted organization job after limit db found numbered =
    let a = or_else after 0 in
    let log = select_rows (of_job job) db.events in
    let (counted, size) = after-IsCounted a 1 log numbered (omega arith) in
    let (page, page_size) =
      take-IsCounted (min (max (or_else limit 200) 1) 500) (suc a) (select_rows (is_after a) log)
        counted in
    rw
      (
        found,
        list_events,
        select_rows-&& (of_job job) (is_after a) db.events,
        sort-IsCounted (suc a) (select_rows (is_after a) log) counted,
      )
      (page, page_size ∙ rw size (ap (min (min (max (or_else limit 200) 1) 500)) (omega arith)))
