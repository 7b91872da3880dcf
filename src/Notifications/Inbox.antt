-- ===== src/Notifications/Inbox.antt =====
-- The rows of the notification service: what a user sees and changes are his own.
use stellances.World.{World}
use stellances.Schema.{Notification, notification_key}
use stellances.Base.{
  refl, zero, suc, some, true, false, [], ◌∷◌, String, List, Bool, ◌≢◌, ℕ, length, ◌≡◌, ◌≤◌, All,
  take, length-take-le, Bool-cases, ◌<>◌, inl, arith, Option-cases, ==_iff, inr, ◌==◌,
}
use stellances.Notifications.{
  find_all, mark_read, mark_all_read, delete_one, count_unread, owned, is_unread_of, is_of,
  set_read,
}
use stellances.World.Action.{not_found, ok, err}
use stellances.Table.{select, count, find, update_where}

count-update_where :
    (u : String) (ns : List Notification)
    → count (is_unread_of u) (update_where (is_unread_of u) set_read ns) ≡ 0
count-update_where u [] = refl
count-update_where u (n ∷ ns) = ground (arith, count-update_where u ns)

count-others :
    (u v : String) (ns : List Notification)
    → v ≢ u
    → count (is_unread_of v) (update_where (is_unread_of u) set_read ns) ≡ count (is_unread_of v) ns
count-others u v [] ne = refl
count-others u v (n ∷ ns) ne =
    ground (arith, ==_iff n.user_id u, ==_iff n.user_id v, count-others u v ns ne)

-- `markAllRead` reports what `countUnread` showed before, shows 0 to the user after, and leaves what
-- every other user has unread as it was.
pub mark_all_read_ok :
    (u : String) (w : World)
    → ((mark_all_read u w).0 ≡ ok (count_unread u w))
      × (count_unread u (mark_all_read u w).1 ≡ 0)
      × ((v : String) → v ≢ u → count_unread v (mark_all_read u w).1 ≡ count_unread v w)
unfolding mark_all_read count_unread
mark_all_read_ok u w =
    (refl, count-update_where u w.db.notifications, λ v ne. count-others u v w.db.notifications ne)

shown :
    (p : Notification → Bool) (n : ℕ) (ns : List Notification)
    → All (λ x. p x ≡ true) (take n (select p ns))
shown p zero ns = tt
shown p (suc n) [] = tt
shown p (suc n) (x ∷ ns) = elim (Bool-cases (p x)) [
  | inl e ↦ rw (e, select) (e, shown p n ns)
  | inr e ↦ rw (e, select) (shown p (suc n) ns)
]

-- A list of notifications shows at most 100 rows, all of them the user's, and only unread ones where
-- those were asked for.
pub find_all_ok :
    (u : String) (w : World)
    → ((b : Bool) → length (find_all u b w) ≤ 100)
      × All (λ x. is_of u x ≡ true) (find_all u false w)
      × All (λ x. is_unread_of u x ≡ true) (find_all u true w)
unfolding find_all
find_all_ok u w = (
  λ b. length-take-le 100 _,
  shown (is_of u) 100 w.db.notifications,
  shown (is_unread_of u) 100 w.db.notifications,
)

-- A notification that is not there or belongs to another user is neither read nor deleted: both calls
-- answer that it is not found, and nothing changes.
pub stranger_refused :
    (id u : String) (w : World)
    → ((n : Notification) → find notification_key id w.db.notifications ≡ some n → n.user_id ≢ u)
    → (mark_read id u w ≡ (err (not_found ("Notification " <> id <> " not found")), w))
      × (delete_one id u w ≡ (err (not_found ("Notification " <> id <> " not found")), w))
unfolding mark_read delete_one owned
stranger_refused id u w h = elim (Option-cases (find notification_key id w.db.notifications)) [
  | inl e ↦ (ground arith, ground arith)
  | inr (n, e) ↦
      let other : (n.user_id == u) ≡ false = elim (Bool-cases (n.user_id == u)) [
        | inl p ↦ absurd (h n e ((==_iff n.user_id u).0 p))
        | inr p ↦ p
      ] in
      (ground arith, ground arith)
]
