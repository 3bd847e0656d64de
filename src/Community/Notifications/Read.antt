-- ===== src/Community/Notifications/Read.antt =====
-- Notifications that are read, one by one and all at once.
use noshiro_db_backend.Base.{
  ℕ, ◌≡◌, refl, sym, ap, ◌∙◌, inl, inr, Bool, true, false, List, Option, none, some, update_one,
  get, arith, Option-cases, IsKeyed, update-again, ◌⊎◌, update_one_refused, update_one_flag,
  get-update_one,
}
use noshiro_db_backend.Community.Model.{Notification, Tables}
use noshiro_db_backend.Community.Notifications.{
  is_unread, is_unread_of, mark_all_read, mark_read, marked,
}

-- The time at which a notification counts as read, when it is read now.
abbrev first_read : Option ℕ → ℕ → ℕ
first_read none now = now
first_read (some t) now = t

-- A copy whose row was written, and a row that is read already.
marked_written :
    (copy : Notification) (now : ℕ) (w : Tables) (res : Bool × List Notification)
    → res.0 ≡ true
    → marked copy now w res
      ≡ (some (record copy { read_at = some now }), record w { notifications = res.1 })
marked_written copy now w (true, rows) h = refl
marked_written copy now w (false, rows) h = absurd (cc)

set_as_read :
    (n : Notification) (t : ℕ) → n.read_at ≡ some t → some n ≡ some (record n { read_at = some t })
set_as_read n t h = ap (λ (o : Option ℕ). some (record n { read_at = o })) h

-- What marking leaves: the copy and the row agree on the first time.
abbrev pub AgreesOn : Notification → Notification → ℕ → Option Notification × Tables → Type 0
AgreesOn copy row t (answer, w) =
    (answer ≡ some (record copy { read_at = some t }))
    × (get Notification.id copy.id w.notifications ≡ some (record row { read_at = some t }))

marked_row :
    (w : Tables) (copy row : Notification) (now : ℕ) (o : Option ℕ)
    → IsKeyed Notification.id w.notifications
    → get Notification.id copy.id w.notifications ≡ some row
    → row.read_at ≡ o
    → AgreesOn copy row (first_read o now) (
        marked copy now w (
          update_one Notification.id copy.id is_unread
            (λ n. record n { read_at = some now })
            w.notifications))
marked_row w copy row now none keyed found unread =
    let write : Notification → Notification = λ n. record n { read_at = some now } in
    let is_open : is_unread row ≡ true = rw unread refl in
    let flag =
      update_one_flag Notification.id copy.id is_unread write w.notifications row keyed found
      ∙ is_open in
    let there =
      get-update_one Notification.id copy.id is_unread write w.notifications row (λ n. refl)
        found in
    rw
      (marked_written copy now w
        (update_one Notification.id copy.id is_unread write w.notifications) flag)
      (refl, there ∙ rw is_open refl)
marked_row w copy row now (some t) keyed found was_read =
    let refused =
      update_one_refused Notification.id copy.id is_unread (λ n. record n { read_at = some now })
        w.notifications row keyed found (rw was_read refl) in
    rw refused (rw (found, was_read) refl, found ∙ set_as_read row t was_read)

-- Marking a notification as read through a copy that is unread, or as the row is: the copy and the
-- row agree afterwards on when it was read, which is the time that the row had, if it had one.
pub mark_read-agrees :
    (w : Tables) (copy row : Notification) (now : ℕ)
    → IsKeyed Notification.id w.notifications
    → get Notification.id copy.id w.notifications ≡ some row
    → (copy.read_at ≡ none) ⊎ (copy.read_at ≡ row.read_at)
    → AgreesOn copy row (first_read row.read_at now) (mark_read w copy now)
unfolding mark_read
mark_read-agrees w copy row now keyed found fresh = elim (Option-cases copy.read_at) [
  | inl unread ↦ rw unread (marked_row w copy row now row.read_at keyed found refl)
  | inr (t, was_read) ↦
      let row_read : row.read_at ≡ some t = elim fresh [
        | inl unread ↦ absurd (cc (unread, was_read))
        | inr same ↦ sym same ∙ was_read
      ] in
      rw (was_read, row_read) (refl, found ∙ set_as_read row t row_read)
]

-- Reading all notifications of a user again finds none to read and changes nothing.
mark_all_read-again :
    (w : Tables) (user now later : ℕ)
    → mark_all_read (mark_all_read w user now).1 user later ≡ (0, (mark_all_read w user now).1)
unfolding mark_all_read
mark_all_read-again w user now later =
    let (none_left, unchanged) =
      update-again (is_unread_of user) (λ n. record n { read_at = some now })
        (λ n. record n { read_at = some later }) w.notifications (λ n. ground (arith)) in
    rw (none_left, unchanged) refl
