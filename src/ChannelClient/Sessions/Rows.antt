-- ===== src/ChannelClient/Sessions/Rows.antt =====
-- The rows of sessions and their keys.
use moatazalasrai.Prelude.{
  any-update, any-append, ℕ, ◌≡◌, inl, inr, refl, sym, subst, Bool, true, false, ◌&&◌, List, [],
  ◌∷◌, ◌++◌, none, some, ◌==◌, some_inv, if◌then◌else◌, arith, ||-inv, &&-inv, ==_iff, Bool-cases,
  find_row, update_rows, any,
}
use moatazalasrai.ChannelClient.Sessions.{
  Channel, telegram, whatsapp, same_channel, Session, is_row, is_read,
}

-- The primary keys of the two tables.
abbrev pub IsKeyed : List Session → Type 0
IsKeyed [] = Unit {0}
IsKeyed (s ∷ rows) = (any (is_row s.channel s.id) rows ≡ false) × IsKeyed rows

pub same_channel_refl : (c : Channel) → same_channel c c ≡ true
same_channel_refl telegram = refl
same_channel_refl whatsapp = refl

pub same_channel_sound : (a b : Channel) → same_channel a b ≡ true → a ≡ b
same_channel_sound telegram telegram h = refl
same_channel_sound whatsapp whatsapp h = refl
same_channel_sound telegram whatsapp h = cc
same_channel_sound whatsapp telegram h = cc

pub absent-read :
    (seen : Session) (rows : List Session)
    → any (is_row seen.channel seen.id) rows ≡ false
    → find_row (is_read seen) rows ≡ none
unfolding find_row
absent-read seen [] a = refl
absent-read seen (s ∷ rows) a = ground (arith, absent-read seen rows)

pub read-row : (seen s : Session) → is_row seen.channel seen.id s ≡ false → is_read seen s ≡ false
read-row seen s e = rw e refl

-- A row with the channel and the id of another.
pub as_row :
    (P : Channel → ℕ → Type 0) (channel : Channel) (id : ℕ) (s : Session)
    → is_row channel id s ≡ true
    → P s.channel s.id
    → P channel id
as_row P channel id s e h =
    let (channels, ids) = &&-inv (same_channel channel s.channel) (s.id == id) e in
    subst (λ c. P c id) (sym (same_channel_sound channel s.channel channels))
      (subst (P s.channel) ((==_iff s.id id).0 ids) h)

pub keyed-read :
    (seen : Session) (rows : List Session) {r : Session}
    → IsKeyed rows
    → find_row (is_row seen.channel seen.id) rows ≡ some r
    → find_row (is_read seen) rows ≡ (if is_read seen r then some r else none)
unfolding find_row
keyed-read seen [] k e = cc
keyed-read seen (x ∷ rows) {r} k e = elim (Bool-cases (is_row seen.channel seen.id x)) [
  | inl mine ↦
      let same : x ≡ r = some_inv (rw mine at e) in
      let absent = as_row (λ c i. any (is_row c i) rows ≡ false) seen.channel seen.id x mine k.0 in
      subst (λ y. find_row (is_read seen) (x ∷ rows) ≡ (if is_read seen y then some y else none))
        same
        (elim (Bool-cases (is_read seen x)) [
          | inl taken ↦ rw taken refl
          | inr passed ↦ rw passed (absent-read seen rows absent)
        ])
  | inr other ↦ rw (read-row seen x other) (keyed-read seen rows {r = r} k.1 (rw other at e))
]

pub itself : (s : Session) → is_row s.channel s.id s ≡ true
itself s = rw (same_channel_refl s.channel) ((==_iff s.id s.id).1 refl)

pub unread :
    (channel : Channel) (id : ℕ) (seen : Session)
    → is_row channel id seen ≡ false
    → (r : Session) → is_row channel id r ≡ true
    → is_read seen r ≡ false
unread channel id seen theirs r mine = elim (Bool-cases (is_row seen.channel seen.id r)) [
  | inr other ↦ read-row seen r other
  | inl same ↦
      let seen_row =
        as_row (λ c i. (same_channel channel c && i == id) ≡ true) seen.channel seen.id r same
          mine in
      absurd (cc (seen_row, theirs))
]

module _ (q : Session → Bool) (f : Session → Session) where
  pub update-IsKeyed :
      (rows : List Session)
      → ((s : Session) → (f s).channel ≡ s.channel)
      → ((s : Session) → (f s).id ≡ s.id)
      → ((c : Channel) (i : ℕ) (s : Session) → is_row c i (f s) ≡ is_row c i s)
      → IsKeyed rows
      → IsKeyed (update_rows q f rows)
  unfolding update_rows
  update-IsKeyed [] channels ids same k = tt
  update-IsKeyed (s ∷ rows) channels ids same k =
      let rest = update-IsKeyed rows channels ids same k.1 in
      elim (Bool-cases (q s)) [
        | inl taken ↦
            rw (taken, channels s, ids s)
              (rw (any-update (is_row s.channel s.id) q f rows (same s.channel s.id)) k.0, rest)
        | inr passed ↦
            rw passed
              (rw (any-update (is_row s.channel s.id) q f rows (same s.channel s.id)) k.0, rest)
      ]

pub other_row : (a b : Session) → is_row b.channel b.id a ≡ false → is_row a.channel a.id b ≡ false
other_row a b e = elim (Bool-cases (is_row a.channel a.id b)) [
  | inr other ↦ other
  | inl mine ↦
      let back = as_row (λ c i. is_row c i a ≡ false) a.channel a.id b mine e in
      absurd (cc (itself a, back))
]

pub append-IsKeyed :
    (rows : List Session) (new : Session)
    → any (is_row new.channel new.id) rows ≡ false
    → IsKeyed rows
    → IsKeyed (rows ++ new ∷ [])
append-IsKeyed [] new absent k = (refl, tt)
append-IsKeyed (s ∷ rows) new absent k =
    let (different, rest) =
      ||-inv (is_row new.channel new.id s) (any (is_row new.channel new.id) rows) absent in
    (
      rw (any-append (is_row s.channel s.id) rows new, k.0, other_row s new different) refl,
      append-IsKeyed rows new rest k.1,
    )
