-- ===== src/Execution/Status.antt =====
-- The statuses of an execution job and the transition table of lib/execution/states.ts.
use moatazalasrai.Prelude.{
  ℕ, ◌≡◌, refl, Option, none, some, Bool, true, List, [], ◌∷◌, ◌==◌, any, String, arith,
}

pub data Status : Type 0 where
  queued provisioning ready running waiting_for_input waiting_for_approval cancel_requested : Status
  cancelling completed failed timed_out cancelled orphaned : Status

-- The position of a status in the enumeration, by which two statuses are compared.
abbrev pub status_index : Status → ℕ
status_index queued = 0
status_index provisioning = 1
status_index ready = 2
status_index running = 3
status_index waiting_for_input = 4
status_index waiting_for_approval = 5
status_index cancel_requested = 6
status_index cancelling = 7
status_index completed = 8
status_index failed = 9
status_index timed_out = 10
status_index cancelled = 11
status_index orphaned = 12

-- `a === b` on statuses.
abbrev pub same : Status → Status → Bool
same a b = status_index a == status_index b

pub same→eq : (a b : Status) → same a b ≡ true → a ≡ b
same→eq a b h = ground arith

abbrev pub one_of : List Status → Status → Bool
one_of xs s = any (same s) xs

unfoldable pub is_terminal : Status → Bool
is_terminal s = one_of (completed ∷ failed ∷ timed_out ∷ cancelled ∷ []) s

unfoldable pub transitions : Status → List Status
transitions queued = provisioning ∷ cancel_requested ∷ failed ∷ timed_out ∷ []
transitions provisioning = ready ∷ cancel_requested ∷ failed ∷ timed_out ∷ orphaned ∷ []
transitions ready = running ∷ cancel_requested ∷ failed ∷ timed_out ∷ orphaned ∷ []
transitions running =
    waiting_for_input ∷ waiting_for_approval ∷ cancel_requested ∷ completed ∷ failed ∷ timed_out
    ∷ orphaned ∷ []
transitions waiting_for_input = running ∷ cancel_requested ∷ failed ∷ timed_out ∷ orphaned ∷ []
transitions waiting_for_approval = running ∷ cancel_requested ∷ failed ∷ timed_out ∷ orphaned ∷ []
transitions cancel_requested = cancelling ∷ cancelled ∷ failed ∷ orphaned ∷ []
transitions cancelling = cancelled ∷ failed ∷ orphaned ∷ []
transitions orphaned =
    provisioning ∷ ready ∷ running ∷ cancel_requested ∷ failed ∷ timed_out ∷ cancelled ∷ []
transitions completed = []
transitions failed = []
transitions timed_out = []
transitions cancelled = []

unfoldable pub can_transition : Status → Status → Bool
unfolding transitions
can_transition current next = one_of (transitions current) next

unfoldable pub transition_event : Status → String
transition_event queued = "job.queued"
transition_event provisioning = "workspace.provisioning"
transition_event ready = "workspace.ready"
transition_event running = "process.started"
transition_event waiting_for_input = "input.required"
transition_event waiting_for_approval = "approval.required"
transition_event cancel_requested = "cancel.requested"
transition_event cancelling = "process.terminated"
transition_event completed = "job.completed"
transition_event failed = "job.failed"
transition_event timed_out = "job.timed_out"
transition_event cancelled = "job.cancelled"
transition_event orphaned = "job.failed"

-- A path of single allowed transitions.
pub data Walk : Status → Status → Type 0 where
  stay : {s : Status} → Walk s s
  move : {s t u : Status} → Walk s t → can_transition t u ≡ true → Walk s u

pub Walk-trans : {s t u : Status} → Walk s t → Walk t u → Walk s u
Walk-trans w stay = w
Walk-trans w (move v h) = move (Walk-trans w v) h

-- No transition leads out of a terminal status.
pub not-can_transition-terminal :
    (s u : Status) → is_terminal s ≡ true → can_transition s u ≡ true → ⊥
unfolding is_terminal can_transition
not-can_transition-terminal s u h e = ground arith

-- A walk from a terminal status does not leave it.
pub Walk-terminal : {s t : Status} → Walk s t → is_terminal s ≡ true → t ≡ s
Walk-terminal stay h = refl
Walk-terminal (move {t = t} {u = u} w e) h =
    let same_end = Walk-terminal w h in absurd (not-can_transition-terminal t u (rw same_end h) e)

-- The status of a job that may not be there yet, before and after: a job is created queued, then
-- walks along the table, and its row is never removed.
abbrev pub StatusMoves : Option Status → Option Status → Type 0
StatusMoves none none = Unit
StatusMoves none (some t) = Walk queued t
StatusMoves (some s) none = ⊥
StatusMoves (some s) (some t) = Walk s t

pub StatusMoves-refl : (o : Option Status) → StatusMoves o o
StatusMoves-refl none = tt
StatusMoves-refl (some s) = stay

pub StatusMoves-trans :
    (o p q : Option Status) → StatusMoves o p → StatusMoves p q → StatusMoves o q
StatusMoves-trans none none none h k = tt
StatusMoves-trans none none (some q) h k = k
StatusMoves-trans none (some p) none h k = absurd k
StatusMoves-trans none (some p) (some q) h k = Walk-trans h k
StatusMoves-trans (some o) none q h k = absurd h
StatusMoves-trans (some o) (some p) none h k = absurd k
StatusMoves-trans (some o) (some p) (some q) h k = Walk-trans h k
