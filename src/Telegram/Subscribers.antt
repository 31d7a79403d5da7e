-- ===== src/Telegram/Subscribers.antt =====
-- Who is notified of a start (execqueue/workers/telegram/notifications.py).
use mathlib.Core.List.{Perm, filter}
use mathlib.Core.List.Perm
use exec_queue.Common.{◌≡◌, refl, sym, Bool, true, false, ◌&&◌, List, [], ◌∷◌, map, keep, arith}
use mathlib.Core.Path.{subst}
use exec_queue.Database.{Table}
use exec_queue.Telegram.{TelegramUser, is_subscribed, get_startup_notification_recipients}

is_true : (b : Bool) → Dec (b ≡ true)
is_true true = yes refl
is_true false = no (λ e. cc)

module _ {ℓ} {A : Type ℓ} (p : A → Bool) where
  keep-eq-filter : (xs : List A) → keep p xs ≡ filter (λ x. is_true (p x)) xs
  unfolding is_true
  keep-eq-filter [] = refl
  keep-eq-filter (x ∷ xs) = ground (arith, keep-eq-filter xs)

  keep_perm : (xs ys : List A) → Perm xs ys → Perm (keep p xs) (keep p ys)
  keep_perm xs ys h =
      subst (λ l. Perm l (keep p ys)) (sym (keep-eq-filter xs))
        (subst (λ l. Perm (filter (λ x. is_true (p x)) xs) l) (sym (keep-eq-filter ys))
          (Perm.filter (λ x. is_true (p x)) h))

  keep-keep_and : (q : A → Bool) (xs : List A) → keep p (keep q xs) ≡ keep (λ x. q x && p x) xs
  keep-keep_and q [] = refl
  keep-keep_and q (x ∷ xs) = ground (arith, keep-keep_and q xs)

-- On either dialect, the recipients are the active users who have subscribed, each as often as it is
-- there and in some order.
pub get_startup_notification_recipients_lem :
    (db : Table TelegramUser) (postgresql : Bool) (rows : List TelegramUser)
    → Perm
        (get_startup_notification_recipients db postgresql rows)
        (map (λ u. u.telegram_id) (keep (λ u. u.is_active && is_subscribed u) rows))
unfolding get_startup_notification_recipients
get_startup_notification_recipients_lem db true rows =
    Perm.map (λ u. u.telegram_id) (db.select_where_perm (λ u. u.is_active && is_subscribed u) rows)
get_startup_notification_recipients_lem db false rows =
    Perm.map (λ u. u.telegram_id)
      (subst (λ l. Perm (keep is_subscribed (db.select_where (λ u. u.is_active) rows)) l)
        (keep-keep_and is_subscribed (λ u. u.is_active) rows)
        (keep_perm is_subscribed _ _ (db.select_where_perm (λ u. u.is_active) rows)))
