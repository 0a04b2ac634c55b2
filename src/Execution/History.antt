-- ===== src/Execution/History.antt =====
-- What any change of the database may do to the status of a job, and that the statements which
-- write no job row do nothing to it.
use moatazalasrai.Prelude.{
  ℕ, ◌≡◌, refl, sym, ap, ◌∙◌, touched, find_row-update, subst, inl, inr, Bool, true, false, List,
  [], ◌∷◌, ◌++◌, Option, none, some, ◌==◌, ==_iff, Bool-cases, find_row, update_rows, arith,
}
use moatazalasrai.Execution.Status.{
  Status, Walk, stay, StatusMoves, StatusMoves-refl, StatusMoves-trans, queued,
}
use moatazalasrai.Execution.Schema.{Job, JobKind, diagnostic, tool}
use moatazalasrai.Execution.Db.{is_job}

abbrev pub has_id : ℕ → Job → Bool
has_id k j = j.id == k

abbrev status_as : JobKind → Status → Option Status
status_as diagnostic s = some s
status_as tool s = none

abbrev pub status_of : Option Job → Option Status
status_of none = none
status_of (some j) = status_as j.kind j.status

-- The status of the job of the kernel with an id: a job that runs a tool counts as none.
unfoldable pub status_in : ℕ → List Job → Option Status
status_in k xs = status_of (find_row (has_id k) xs)

-- Between two states of the job table, every job of the kernel walks along the transition table.
abbrev pub JobsMove : List Job → List Job → Type 0
JobsMove xs ys = (k : ℕ) → StatusMoves (status_in k xs) (status_in k ys)

pub JobsMove-refl : (xs : List Job) → JobsMove xs xs
JobsMove-refl xs k = StatusMoves-refl (status_in k xs)

pub JobsMove-trans : (xs ys zs : List Job) → JobsMove xs ys → JobsMove ys zs → JobsMove xs zs
JobsMove-trans xs ys zs h g k =
    StatusMoves-trans (status_in k xs) (status_in k ys) (status_in k zs) (h k) (g k)

-- A row of an unchanged kind, before and after.
status_as-Walk :
    (k : JobKind) {s t : Status} → Walk s t → StatusMoves (status_as k s) (status_as k t)
status_as-Walk diagnostic w = w
status_as-Walk tool w = tt

row-Walk :
    (x y : Job)
    → y.kind ≡ x.kind
    → Walk x.status y.status
    → StatusMoves (status_of (some x)) (status_of (some y))
row-Walk x y same w =
    subst (λ k. StatusMoves (status_as x.kind x.status) (status_as k y.status)) (sym same)
      (status_as-Walk x.kind w)

module _ (organization id : ℕ) (f : Job → Job) (same_id : (j : Job) → (f j).id ≡ j.id)
    (same_kind : (j : Job) → (f j).kind ≡ j.kind) where
  -- An update does not touch a job of another id.
  status_in-update_ne :
      (k : ℕ) (xs : List Job)
      → (id == k) ≡ false
      → status_in k (update_rows (is_job organization id) f xs) ≡ status_in k xs
  unfolding status_in find_row update_rows
  status_in-update_ne k [] h = refl
  status_in-update_ne k (x ∷ xs) h = ground (arith, same_id x, status_in-update_ne k xs h)

  status_in-update_self :
      (xs : List Job)
      → ((j : Job) → find_row (is_job organization id) xs ≡ some j → Walk j.status (f j).status)
      → StatusMoves (status_in id xs) (status_in id (update_rows (is_job organization id) f xs))
  unfolding status_in find_row update_rows
  status_in-update_self [] w = tt
  status_in-update_self (x ∷ xs) w = elim (Bool-cases (x.id == id)) [
    | inl hit ↦ elim (Bool-cases (x.organization == organization)) [
      | inl own ↦ simp (hit, own, same_id) (row-Walk x (f x) (same_kind x) (w x (simp (hit, own))))
      | inr foreign ↦ simp (hit, foreign) (row-Walk x x refl stay)
    ]
    | inr miss ↦ simp miss (status_in-update_self xs (λ j e. w j (simp miss e)))
  ]

  -- An update that moves the selected job along a walk.
  pub update_rows-JobsMove :
      (xs : List Job)
      → ((j : Job) → find_row (is_job organization id) xs ≡ some j → Walk j.status (f j).status)
      → JobsMove xs (update_rows (is_job organization id) f xs)
  update_rows-JobsMove xs w k = elim (Bool-cases (id == k)) [
    | inl hit ↦
        subst
          (λ n.
            StatusMoves (status_in n xs) (status_in n (update_rows (is_job organization id) f xs)))
          ((==_iff id k).0 hit) (status_in-update_self xs w)
    | inr miss ↦ rw (status_in-update_ne k xs miss) (StatusMoves-refl (status_in k xs))
  ]

-- An update that moves every row it writes along a walk.
pub update_rows-JobsMove_all :
    (p : Job → Bool) (f : Job → Job) (xs : List Job)
    → ((j : Job) → (f j).id ≡ j.id)
    → ((j : Job) → (f j).kind ≡ j.kind)
    → ((j : Job) → p j ≡ true → Walk j.status (f j).status)
    → JobsMove xs (update_rows p f xs)
unfolding status_in find_row update_rows
update_rows-JobsMove_all p f [] same_id same_kind w k = tt
update_rows-JobsMove_all p f (x ∷ xs) same_id same_kind w k = elim (Bool-cases (x.id == k)) [
  | inl hit ↦ elim (Bool-cases (p x)) [
    | inl t ↦ simp (t, same_id, hit) (row-Walk x (f x) (same_kind x) (w x t))
    | inr u ↦ simp (u, hit) (row-Walk x x refl stay)
  ]
  | inr miss ↦ elim (Bool-cases (p x)) [
    | inl t ↦ simp (t, same_id, miss) (update_rows-JobsMove_all p f xs same_id same_kind w k)
    | inr u ↦ simp (u, miss) (update_rows-JobsMove_all p f xs same_id same_kind w k)
  ]
]

status_in-append_new :
    (k : ℕ) (n : Job) (xs : List Job)
    → StatusMoves none (status_of (some n))
    → StatusMoves (status_in k xs) (status_in k (xs ++ n ∷ []))
unfolding status_in find_row
status_in-append_new k n [] w = elim (Bool-cases (n.id == k)) [
  | inl hit ↦ simp hit w
  | inr miss ↦ simp miss tt
]
status_in-append_new k n (x ∷ xs) w = elim (Bool-cases (x.id == k)) [
  | inl hit ↦ simp hit (row-Walk x x refl stay)
  | inr miss ↦ simp miss (status_in-append_new k n xs w)
]

new-Walk : (k : JobKind) (s : Status) → s ≡ queued → StatusMoves none (status_as k s)
new-Walk diagnostic s e = rw e stay
new-Walk tool s e = tt

-- A new row in status queued, behind the others.
pub append-JobsMove : (n : Job) (xs : List Job) → n.status ≡ queued → JobsMove xs (xs ++ n ∷ [])
append-JobsMove n xs e k = status_in-append_new k n xs (new-Walk n.kind n.status e)

status_as-none : (k : JobKind) (s t : Status) → status_as k s ≡ none → status_as k t ≡ none
status_as-none diagnostic s t h = cc
status_as-none tool s t h = refl

touched-none :
    (q : Job → Bool) (f : Job → Job) (o : Option Job)
    → ((j : Job) → (f j).kind ≡ j.kind)
    → status_of o ≡ none
    → status_of (touched q f o) ≡ none
touched-none q f none same_kind h = refl
touched-none q f (some x) same_kind h = elim (Bool-cases (q x)) [
  | inl taken ↦ rw (taken, same_kind x) (status_as-none x.kind x.status (f x).status h)
  | inr passed ↦ rw passed h
]

-- An update of the rows with an id that no job of the kernel has.
pub update_rows-JobsMove_tool :
    (organization id : ℕ) (f : Job → Job) (xs : List Job)
    → ((j : Job) → (f j).id ≡ j.id)
    → ((j : Job) → (f j).kind ≡ j.kind)
    → status_in id xs ≡ none
    → JobsMove xs (update_rows (is_job organization id) f xs)
unfolding status_in
update_rows-JobsMove_tool organization id f xs same_id same_kind h k = elim (Bool-cases (id == k)) [
  | inr miss ↦
      rw (status_in-update_ne organization id f same_id same_kind k xs miss)
        (StatusMoves-refl (status_in k xs))
  | inl hit ↦
      let q = is_job organization id in
      let moved = find_row-update (has_id id) q f xs (λ x. ap (λ i. i == id) (same_id x)) in
      let gone : status_of (find_row (has_id id) (update_rows q f xs)) ≡ none =
        ap status_of moved ∙ touched-none q f (find_row (has_id id) xs) same_kind h in
      subst (λ n. StatusMoves (status_in n xs) (status_in n (update_rows q f xs)))
        ((==_iff id k).0 hit) (rw (h, gone) tt)
]
