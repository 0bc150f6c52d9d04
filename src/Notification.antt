-- ===== src/Notification.antt =====
-- kernel/include/notification.h and kernel/src/notification.c: asynchronous badges.
pub mod Badges
use moonlight_os.Prelude.{ℕ, Bool, true, false, ◌==◌, if◌then◌else◌, bit_or}
use moonlight_os.Types.{KError, ok, invalid_arg}

-- `notification_t`
pub record Notification : Type 0 where
  pub badge : ℕ
  pub has_waiter : Bool
  pub waiter_tcb : ℕ
  pub bound_tcb : ℕ

-- `notification_init`. No pointer is NULL here and below.
unfoldable pub init : Notification
init = record { badge = 0; has_waiter = false; waiter_tcb = 0; bound_tcb = 0 }

-- `notification_signal`
unfoldable pub signal : Notification → ℕ → KError × Notification
signal ntfn badge =
    if badge == 0
    then (invalid_arg, ntfn)
    else (ok, record ntfn { badge = bit_or ntfn.badge badge })

-- `notification_wait`: its error, `*out_badge` and the notification.
unfoldable pub wait : Notification → ℕ → ℕ → KError × ℕ × Notification
wait ntfn waiter out =
    if ntfn.badge == 0
    then (ok, out, record ntfn { has_waiter = true; waiter_tcb = waiter })
    else (ok, ntfn.badge, record ntfn { badge = 0 })

-- `notification_poll`: its error, `*out_badge` and the notification.
unfoldable pub poll : Notification → KError × ℕ × Notification
poll ntfn = (ok, ntfn.badge, record ntfn { badge = 0 })

-- `notification_bind`
unfoldable pub bind : Notification → ℕ → KError × Notification
bind ntfn tcb_id = (ok, record ntfn { bound_tcb = tcb_id })
