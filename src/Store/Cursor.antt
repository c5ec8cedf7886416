-- ===== src/Store/Cursor.antt =====
-- internal/task/store.go: `EventsAfter` skips no event.
use mathlib.Core.List.{Memᴰ}
use agent_trail.Base.{
  ℕ, zero, suc, ◌≤◌, ◌<◌, ◌⊎◌, String, ◌≡◌, refl, Bool, true, false, some, List, [], ◌∷◌, ℤ, pos,
  int_leb, int_eq, arith, Bool-cases, Option-cases, inl, inr, eq_iff,
}
use agent_trail.Text.{canonical, is_uuid}
use agent_trail.Task.{Attempt, Event}
use agent_trail.Table.{find}
use agent_trail.Db.{Db, Session, ok, on_ok, query-eq-ok, require-eq-ok}
use agent_trail.Store.Statements.{attempt_is, of_task}
use agent_trail.Store.Reads.{
  select, insert_by, order_by, limited, rows_count, clamp, Entry, entries, after_cursor, earlier,
  page, events_after,
}
use agent_trail.Lease.Choice.{Every, Every-map}
use agent_trail.Lease.Where.{int_eq-eq}
use agent_trail.Store.Pages.{
  Sorted, order_by-Every, order_by-Sorted, limited-Every, earlier_total, earlier_trans, clamp_le,
  page-Every, page-Sorted, page_le, statement-eq-ok,
}

module _ {R : Type 0} where
  select-mem :
      (p : R → Bool) (rows : List R) (r : R) → Memᴰ r rows → p r ≡ true → Memᴰ r (select p rows)
  unfolding select
  select-mem p [] r m h = elim m [ ]
  select-mem p (x ∷ rows) r (Memᴰ.head same) h =
      let here : p x ≡ true = rw (← same) h in rw here (Memᴰ.head same)
  select-mem p (x ∷ rows) r (Memᴰ.tail m) h = elim (Bool-cases (p x)) [
    | inl fits ↦ rw fits (Memᴰ.tail (select-mem p rows r m h))
    | inr unfit ↦ rw unfit (select-mem p rows r m h)
  ]

  insert_by-new : (before : R → R → Bool) (r : R) (rows : List R) → Memᴰ r (insert_by before r rows)
  unfolding insert_by
  insert_by-new before r [] = Memᴰ.head refl
  insert_by-new before r (x ∷ rows) = elim (Bool-cases (before r x)) [
    | inl goes ↦ rw goes (Memᴰ.head refl)
    | inr stays ↦ rw stays (Memᴰ.tail (insert_by-new before r rows))
  ]

  insert_by-old :
      (before : R → R → Bool) (y r : R) (rows : List R)
      → Memᴰ r rows
      → Memᴰ r (insert_by before y rows)
  unfolding insert_by
  insert_by-old before y r [] m = elim m [ ]
  insert_by-old before y r (x ∷ rows) (Memᴰ.head same) = elim (Bool-cases (before y x)) [
    | inl goes ↦ rw goes (Memᴰ.tail (Memᴰ.head same))
    | inr stays ↦ rw stays (Memᴰ.head same)
  ]
  insert_by-old before y r (x ∷ rows) (Memᴰ.tail m) =
      let below = insert_by-old before y r rows m in
      elim (Bool-cases (before y x)) [
        | inl goes ↦ rw goes (Memᴰ.tail (Memᴰ.tail m))
        | inr stays ↦ rw stays (Memᴰ.tail below)
      ]

  order_by-mem :
      (before : R → R → Bool) (rows : List R) (r : R) → Memᴰ r rows → Memᴰ r (order_by before rows)
  unfolding order_by
  order_by-mem before [] r m = elim m [ ]
  order_by-mem before (x ∷ rows) r (Memᴰ.head same) =
      rw same (insert_by-new before x (order_by before rows))
  order_by-mem before (x ∷ rows) r (Memᴰ.tail m) =
      insert_by-old before x r (order_by before rows) (order_by-mem before rows r m)

  sorted-mem :
      (before : R → R → Bool) (x r : R) (rows : List R)
      → Every (λ y. before x y ≡ true) rows
      → Memᴰ r rows
      → before x r ≡ true
  sorted-mem before x r [] h m = elim m [ ]
  sorted-mem before x r (y ∷ rows) h (Memᴰ.head same) = rw same h.0
  sorted-mem before x r (y ∷ rows) h (Memᴰ.tail m) = sorted-mem before x r rows h.1 m

  -- A row of a sorted list is kept by LIMIT, or the limit is used up by rows that stand before it.
  limited-mem :
      (before : R → R → Bool) (n : ℕ) (rows : List R) (r : R)
      → Sorted before rows
      → Memᴰ r rows
      → Memᴰ r (limited n rows)
        ⊎ ((rows_count (limited n rows) ≡ n) × Every (λ x. before x r ≡ true) (limited n rows))
  unfolding limited rows_count
  limited-mem before n [] r k m = elim m [ ]
  limited-mem before zero (x ∷ rows) r k m = inr (refl, tt)
  limited-mem before (suc n) (x ∷ rows) r k (Memᴰ.head same) = inl (Memᴰ.head same)
  limited-mem before (suc n) (x ∷ rows) r k (Memᴰ.tail m) =
      elim (limited-mem before n rows r k.1 m) [
        | inl kept ↦ inl (Memᴰ.tail kept)
        | inr (full, ahead) ↦ inr (rw full, (sorted-mem before x r rows k.0 m, ahead))
      ]

select-Every-kept :
    (P : Entry → Type 0) (p : Entry → Bool) (rows : List Entry)
    → Every P rows
    → Every P (select p rows)
unfolding select
select-Every-kept P p [] h = tt
select-Every-kept P p (r ∷ rows) h = elim (Bool-cases (p r)) [
  | inl goes ↦ rw goes (h.0, select-Every-kept P p rows h.1)
  | inr stays ↦ rw stays (select-Every-kept P p rows h.1)
]

-- The event belongs to an attempt of the task, which has that number.
abbrev IsEntry : String → Db → Entry → Type 0
IsEntry tid db (number, e) =
    (a : Attempt) × Memᴰ e db.events
    × (find (attempt_is e.task_attempt_id) db.attempts ≡ some a)
    × (a.task_id ≡ tid)
    × (a.number ≡ number)

-- The attempt has a greater number, or it is that of the cursor and the event has a greater sequence number.
abbrev pub IsAfter : ℤ → ℤ → Entry → Type 0
IsAfter attempt sequence (number, e) =
    (int_leb (pos number) attempt ≡ false)
    ⊎ ((pos number ≡ attempt) × (int_leb (pos e.sequence_number) sequence ≡ false))

-- The same order between two entries.
abbrev pub IsBefore : Entry → Entry → Type 0
IsBefore (m, d) (n, e) = (m < n) ⊎ ((m ≡ n) × (d.sequence_number ≤ e.sequence_number))

IsEntry-older :
    (tid : String) (db : Db) (x : Event) (l : List Event) (rows : List Entry)
    → db.events ≡ x ∷ l
    → Every (IsEntry tid (record db { events = l })) rows
    → Every (IsEntry tid db) rows
IsEntry-older tid db x l rows same h =
    Every-map rows (λ r (a, m, found, own, number). (a, rw same (Memᴰ.tail m), found, own, number))
      h

entries-IsEntry :
    (tid : String) (attempts : List Attempt) (l : List Event) (db : Db)
    → db.attempts ≡ attempts
    → db.events ≡ l
    → Every (IsEntry tid db) (entries tid attempts l)
unfolding entries
entries-IsEntry tid attempts [] db e f = tt
entries-IsEntry tid attempts (x ∷ l) db e f =
    let rest : Every (IsEntry tid db) (entries tid attempts l) =
      IsEntry-older tid db x l (entries tid attempts l) f
        (entries-IsEntry tid attempts l (record db { events = l }) e refl) in
    elim (Option-cases (find (attempt_is x.task_attempt_id) attempts)) [
      | inl missing ↦ rw missing rest
      | inr (a, found) ↦ elim (Bool-cases (of_task tid a)) [
        | inl own ↦
            rw (found, own)
              ((a, rw f (Memᴰ.head refl), rw e found, (eq_iff a.task_id tid).0 own, refl), rest)
        | inr other ↦ rw (found, other) rest
      ]
    ]

entries-mem :
    (tid : String) (attempts : List Attempt) (l : List Event) (x : Event) (a : Attempt)
    → Memᴰ x l
    → find (attempt_is x.task_attempt_id) attempts ≡ some a
    → a.task_id ≡ tid
    → Memᴰ (a.number, x) (entries tid attempts l)
unfolding entries
entries-mem tid attempts [] x a m found own = elim m [ ]
entries-mem tid attempts (y ∷ l) x a (Memᴰ.head same) found own =
    let it : find (attempt_is y.task_attempt_id) attempts ≡ some a = rw (← same) found in
    rw (it, (eq_iff a.task_id tid).1 own) (Memᴰ.head (rw same))
entries-mem tid attempts (y ∷ l) x a (Memᴰ.tail m) found own =
    let below = entries-mem tid attempts l x a m found own in
    elim (Option-cases (find (attempt_is y.task_attempt_id) attempts)) [
      | inl missing ↦ rw missing below
      | inr (b, there) ↦ elim (Bool-cases (of_task tid b)) [
        | inl theirs ↦ rw (there, theirs) (Memᴰ.tail below)
        | inr other ↦ rw (there, other) below
      ]
    ]

after_cursor-IsAfter :
    (attempt sequence : ℤ) (e : Entry)
    → after_cursor attempt sequence e ≡ true
    → IsAfter attempt sequence e
unfolding after_cursor
after_cursor-IsAfter attempt sequence (number, e) h =
    elim (Bool-cases (int_eq (pos number) attempt)) [
      | inl same ↦ let q = rw same at h in inr (int_eq-eq (pos number) attempt same, ground arith)
      | inr other ↦ let q = rw other at h in inl (ground arith)
    ]

int_eq_refl : (a : ℤ) → int_eq a a ≡ true
int_eq_refl (pos m) = ground arith
int_eq_refl (ℤ.negsuc m) = ground arith

int_less-neq : (a b : ℤ) → int_leb a b ≡ false → int_eq a b ≡ false
int_less-neq a b h = ground arith

IsAfter-after_cursor :
    (attempt sequence : ℤ) (e : Entry)
    → IsAfter attempt sequence e
    → after_cursor attempt sequence e ≡ true
unfolding after_cursor
IsAfter-after_cursor attempt sequence (number, e) (inl above) =
    rw (int_less-neq (pos number) attempt above, above) refl
IsAfter-after_cursor attempt sequence (number, e) (inr (same, above)) =
    let q : int_eq (pos number) attempt ≡ true = rw same (int_eq_refl attempt) in rw (q, above) refl

earlier-IsBefore : (d e : Entry) → earlier d e ≡ true → IsBefore d e
unfolding earlier
earlier-IsBefore (m, d) (n, e) h = ground arith

-- In the order of the log.
abbrev pub InOrder : List Entry → Type 0
InOrder [] = Unit
InOrder (e ∷ rows) = Every (IsBefore e) rows × InOrder rows

Sorted-InOrder : (rows : List Entry) → Sorted earlier rows → InOrder rows
Sorted-InOrder [] h = tt
Sorted-InOrder (e ∷ rows) h =
    (Every-map rows (λ f k. earlier-IsBefore e f k) h.0, Sorted-InOrder rows h.1)

-- What a client that has read up to the cursor gets.
pub record PageOk (tid : String) (db : Db) (attempt sequence limit : ℤ) (rows : List Entry)
    : Type 0 where
  pub of_task : Every (IsEntry tid db) rows
  pub later : Every (IsAfter attempt sequence) rows
  pub in_order : InOrder rows
  pub bounded : rows_count rows ≤ 1000
  pub complete :
      (a : Attempt) (e : Event)
      → Memᴰ e db.events
      → find (attempt_is e.task_attempt_id) db.attempts ≡ some a
      → a.task_id ≡ tid
      → IsAfter attempt sequence (a.number, e)
      → Memᴰ (a.number, e) rows
        ⊎ ((rows_count rows ≡ clamp 500 1000 limit) × Every (λ r. IsBefore r (a.number, e)) rows)

page-PageOk :
    (tid : String) (db : Db) (attempt sequence limit : ℤ)
    → PageOk tid db attempt sequence limit
        (page (after_cursor attempt sequence) (clamp 500 1000 limit) tid db)
unfolding page
page-PageOk tid db attempt sequence limit =
    let p = after_cursor attempt sequence in
    let n = clamp 500 1000 limit in
    let chosen = select p (entries tid db.attempts db.events) in
    let sorted = order_by-Sorted earlier earlier_total earlier_trans chosen in
    record {
      of_task = limited-Every (IsEntry tid db) n (order_by earlier chosen) (
          order_by-Every earlier (IsEntry tid db) chosen (
            select-Every-kept (IsEntry tid db) p (entries tid db.attempts db.events)
              (entries-IsEntry tid db.attempts db.events db refl refl)));
      later =
          Every-map _ (λ r k. after_cursor-IsAfter attempt sequence r k) (page-Every p n tid db);
      in_order = Sorted-InOrder _ (page-Sorted p n tid db);
      bounded = omega (arith, page_le p n tid db, clamp_le 500 1000 limit (omega arith));
      complete = λ a e m found own later.
          elim (limited-mem earlier n (order_by earlier chosen) (a.number, e) sorted
            (order_by-mem earlier chosen (a.number, e)
              (select-mem p (entries tid db.attempts db.events) (a.number, e)
                (entries-mem tid db.attempts db.events e a m found own)
                (IsAfter-after_cursor attempt sequence (a.number, e) later)))) [
                  | inl there ↦ inl there
                  | inr (full, ahead) ↦
                      inr (full, Every-map _ (λ r k. earlier-IsBefore r (a.number, e) k) ahead)
                ];
    }

-- The entries that `EventsAfter` returns are of the task, come after the cursor in the order of attempt number and then
-- sequence number, and are in that order; there are at most 1000 of them, whatever limit is asked for. No event is skipped: each of the
-- task's events after the cursor is among them, or the limit is used up by entries that do not come after it.
pub events_after-PageOk :
    (id : String) (attempt sequence limit : ℤ) (s : Session) (rows : List Entry)
    → (events_after id attempt sequence limit s).0 ≡ ok rows
    → PageOk (canonical id) s.db attempt sequence limit rows
unfolding events_after
events_after-PageOk id attempt sequence limit s rows h = elim (Bool-cases (is_uuid id)) [
  | inr bad ↦ absurd (let q = rw bad at h in cc)
  | inl named ↦
      let (t, e) = statement-eq-ok _ s (rw named at h) in
      on_ok _ _ e λ known s1 e1 h1. on_ok _ _ h1 λ u s2 e2 h2.
        let same1 = query-eq-ok _ _ s e1 in
        let same2 = require-eq-ok _ _ s1 e2 in
        let back : s2.db ≡ s.db = ground arith in
        let got : page (after_cursor attempt sequence) (clamp 500 1000 limit) (canonical id) s2.db
            ≡ rows =
          (query-eq-ok _ _ s2 h2).0 in
        rw (← got, ← back) (page-PageOk (canonical id) s2.db attempt sequence limit)
]
