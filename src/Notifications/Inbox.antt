-- ===== src/Notifications/Inbox.antt =====
-- Whose notifications a request of backlogg/notifications/service.py reaches.
use backlogg.Prelude.{
  ℕ, Bool, true, false, not, ◌&&◌, List, [], ◌∷◌, Option, none, ◌==◌, ◌≡◌, refl, arith, length,
  filter, any, update_where, delete_where, inl, inr, Bool-cases,
}
use backlogg.Prelude.Rows.{filter-update}
use backlogg.Db.Tables.{Notification, Db}
use backlogg.Db.Session.{request}
use backlogg.Notifications.{
  count_unread, mark_read_rows, mark_read, delete_notification_row, delete_notification,
}

-- The notifications of a user.
abbrev pub inbox : ℕ → Db → List Notification
inbox v d = filter (λ n. n.recipient_id == v) d.notifications.rows

filter-delete :
    {A : Type 0} (q p : A → Bool) (xs : List A)
    → ((x : A) → q x ≡ true → p x ≡ false)
    → filter q (delete_where p xs) ≡ filter q xs
unfolding filter delete_where
filter-delete q p [] apart = refl
filter-delete q p (x ∷ xs) apart = ground (arith, apart x, filter-delete q p xs apart)

unread-marked :
    (u : ℕ) (rows : List Notification)
    → length (
        filter
          (λ n. n.recipient_id == u && not n.is_read)
          (update_where
            (λ n. (n.recipient_id == u && not n.is_read) && true)
            (λ n. record n { is_read = true })
            rows))
      ≡ 0
unfolding filter update_where
unread-marked u [] = refl
unread-marked u (n ∷ rows) = ground (arith, unread-marked u rows)

-- Reading everything leaves a user no unread notification, and neither reading nor deleting changes the notifications
-- of another user, whatever ids are named.
pub inbox_lem :
    (u v : ℕ) (ids : Option (List ℕ)) (i : ℕ) (d : Db)
    → (v == u) ≡ false
    → (count_unread u (request (mark_read u none) d).1 ≡ 0)
      × (inbox v (request (mark_read u ids) d).1 ≡ inbox v d)
      × (inbox v (request (delete_notification u i) d).1 ≡ inbox v d)
unfolding mark_read mark_read_rows count_unread delete_notification delete_notification_row
inbox_lem u v ids i d other = (
  unread-marked u d.notifications.rows,
  filter-update (λ n. n.recipient_id == v) _ (λ n. record n { is_read = true }) d.notifications.rows
      (λ n. refl) (λ n mine. ground (arith, mine, other)),
  elim (Bool-cases (any (λ n. n.id == i && n.recipient_id == u) d.notifications.rows)) [
    | inl hit ↦ rw hit (
        filter-delete (λ n. n.recipient_id == v) (λ n. n.id == i && n.recipient_id == u)
          d.notifications.rows (λ n mine. ground (arith, mine, other)))
    | inr miss ↦ rw miss refl
  ],
)
