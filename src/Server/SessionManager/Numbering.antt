-- ===== src/Server/SessionManager/Numbering.antt =====
-- The numbers of the sessions: every stored session stands under its own number, below the counter.
use pds_progetto.Base.{
  ℕ, ◌+◌, ◌≤◌, ◌<◌, Text, none, some, int_eq, ◌≡◌, refl, sym, ap, ◌∙◌, ◌⊎◌, inl, inr, arith,
  Bool-cases, Option-cases, some-injective, subst,
}
use pds_progetto.Base.Int.{ℤ, pos, ◌==ℤ◌, ==ℤ_iff, int-cases}
use pds_progetto.Base.Dict.{Dict, lookup, erase, lookup-erase}
use pds_progetto.Cpp.Result.{ok_injective, ok_not_throws, ok}
use pds_progetto.Server.Session.{Session, new_session}
use pds_progetto.Server.SessionManager.{
  SessionManager, next_id, enter, retrieve_session, remove_session,
}
use pds_progetto.Server.SessionManager.Laws.{Found, Created, OnlyAt, retrieve_session-Reached}

-- The number of a stored session is one that the counter has passed, and the object carries it.
pub record IsNumbered (m : SessionManager) : Type 0 where
  pub next : ℕ
  pub counter : m.session_counter ≡ pos next
  pub below :
      (j : ℤ) (s : Session)
      → lookup j m.sessions ≡ some s
      → s.session_id ≡ j × (k : ℕ) × j ≡ pos k × k < next

pub entry-IsNumbered :
    (m m' : SessionManager) (n : ℤ) (t : Session) (k next : ℕ)
    → (i : IsNumbered m) → i.next ≤ next
    → m'.session_counter ≡ pos next
    → OnlyAt n m m'
    → lookup n m'.sessions ≡ some t
    → t.session_id ≡ n
    → n ≡ pos k
    → k < next
    → IsNumbered m'
entry-IsNumbered m m' n t k next i grows counter others here id number room = record {
  next = next;
  counter = counter;
  below = λ j s stored. elim (int-cases j n) [
    | inl same ↦ (
      ap (λ x. x.session_id) (same_entry j s stored same) ∙ id ∙ sym same,
      k,
      same ∙ number,
      room,
    )
    | inr other ↦ older j s (sym (others j other) ∙ stored)
  ];
}
  where
    same_entry : (j : ℤ) (s : Session) → lookup j m'.sessions ≡ some s → j ≡ n → s ≡ t
    same_entry j s stored same =
        some-injective s t (sym stored ∙ ap (λ x. lookup x m'.sessions) same ∙ here)

    older :
        (j : ℤ) (s : Session)
        → lookup j m.sessions ≡ some s
        → s.session_id ≡ j × (x : ℕ) × j ≡ pos x × x < next
    older j s stored =
        let (number', x, e, lower) = i.below j s stored in (number', x, e, omega arith)

-- A numbered manager gives a new session a number that no stored session has.
pub fresh : (m : SessionManager) → IsNumbered m → lookup m.session_counter m.sessions ≡ none
fresh m i = elim (Option-cases (lookup m.session_counter m.sessions)) [
  | inl absent ↦ absent
  | inr (s, here) ↦
      (let (id, x, e, lower) = i.below m.session_counter s here in
        let same : pos x ≡ pos i.next = sym e ∙ i.counter in ground arith)
]

next_id_pos : (n : ℕ) → n < 2147483647 → next_id (pos n) ≡ pos (n + 1)
unfolding next_id
next_id_pos n h = ground arith

new_session_id : (n : ℤ) → (enter (new_session n)).session_id ≡ n
unfolding new_session
new_session_id n = refl

-- The entry that `retrieve_session` reaches has a number below the new counter.
reached-IsNumbered :
    (cookie : Text) (m : SessionManager) (n : ℤ) (m' : SessionManager)
    → (i : IsNumbered m) → i.next < 2147483647
    → Found cookie m n m' ⊎ Created m n m'
    → OnlyAt n m m'
    → IsNumbered m'
reached-IsNumbered cookie m n m' i room (inl f) others =
    let (id, k, number, lower) = i.below n f.session f.stored in
    entry-IsNumbered m m' n (enter f.session) k i.next i (omega arith) (f.counter ∙ i.counter)
      others f.entered id number lower
reached-IsNumbered cookie m n m' i room (inr c) others =
    entry-IsNumbered m m' n (enter (new_session n)) i.next (i.next + 1) i (omega arith)
      (c.counter ∙ ap next_id i.counter ∙ next_id_pos i.next room) others c.entered
      (new_session_id n) (c.numbered ∙ i.counter) (omega arith)

-- With fewer than 2 ^ 31 - 1 sessions begun, `retrieve_session` keeps the numbering: the numbers
-- of the stored sessions stay below the counter, and each object stands under its own number.
pub retrieve_session-IsNumbered :
    (cookie : Text) (m : SessionManager) (n : ℤ) (m' : SessionManager)
    → (i : IsNumbered m) → i.next < 2147483647
    → retrieve_session cookie m ≡ ok (n, m')
    → IsNumbered m'
retrieve_session-IsNumbered cookie m n m' i room e = elim (retrieve_session-Reached cookie m) [
  | inl (x, _, failed) ↦ let no = ok_not_throws (sym e ∙ failed) in cc
  | inr (n2, m2, returned, kind, others) ↦
      subst IsNumbered (ap (λ p. p.1) (ok_injective (sym returned ∙ e)))
        (reached-IsNumbered cookie m n2 m2 i room kind others)
]

erased : (n : ℤ) (d : Dict ℤ Session) → lookup n (erase n d) ≡ none
erased n d = rw (lookup-erase n n d) (ground (arith, ==ℤ_iff n n))

pub erased_lookup :
    (n j : ℤ) (t : Session) (d : Dict ℤ Session)
    → lookup j (erase n d) ≡ some t
    → lookup j d ≡ some t
erased_lookup n j t d e = elim (Bool-cases (n ==ℤ j)) [
  | inl same ↦ ground (arith, sym e ∙ lookup-erase n j d, same)
  | inr other ↦ ground (arith, sym e ∙ lookup-erase n j d, other)
]

-- `remove_session` keeps the numbering, and afterwards the number is not stored.
pub remove_session-IsNumbered :
    (n : ℤ) (m : SessionManager)
    → IsNumbered m
    → IsNumbered (remove_session n m).1 × lookup n (remove_session n m).1.sessions ≡ none
unfolding remove_session
remove_session-IsNumbered n m i = elim (Option-cases (lookup n m.sessions)) [
  | inl absent ↦ rw (absent, remove_session) (i, absent)
  | inr (s, here) ↦
      rw (here, remove_session)
        (
          record {
            next = i.next;
            counter = i.counter;
            below = λ j t stored. i.below j t (erased_lookup n j t m.sessions stored);
          },
          erased n m.sessions,
        )
]
