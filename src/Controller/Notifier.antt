-- ===== src/Controller/Notifier.antt =====
-- notifier.py. The sender is a parameter, over an unknown world. A task is the action that it runs.
use nexguard_sentinel.Prelude.{
  String, Bool, false, not, ◌&&◌, Option, none, some, List, [], ◌∷◌, ◌==◌, nats_eq, if◌then◌else◌,
}
use nexguard_sentinel.Python.Exec.{Exception, Result, ok, err, Exec}
use nexguard_sentinel.Python.Text.{Text}
use nexguard_sentinel.Controller.Log.{LogEvent, error_name}

pub record TelegramNotifier : Type 0 where
  pub token : Option Text
  pub chat_id : Option Text

-- os.getenv(…) or None
abbrev pub or_none : Option Text → Option Text
or_none none = none
or_none (some t) = if t == [] then none else some t

unfoldable pub from_env : (String → Option Text) → TelegramNotifier
from_env env = record {
  token = or_none (env "TELEGRAM_BOT_TOKEN");
  chat_id = or_none (env "TELEGRAM_CHAT_ID");
}

-- The truth of a text or None.
abbrev is_true : Option Text → Bool
is_true none = false
is_true (some t) = not (t == [])

unfoldable pub is_configured : TelegramNotifier → Bool
is_configured n = is_true n.token && is_true n.chat_id

module _ {World : Type 0} (sender : Text → Text → Text → Exec World (Unit {0})) where
  -- The world, and what the notifier has logged, newest first.
  pub record Wire : Type 0 where
    pub world : World
    pub log : List LogEvent

  abbrev pub failed_event : Exception → LogEvent
  failed_event e = record {
    event_type = "notification_failed";
    level = "WARNING";
    message = "Telegram notification failed";
    context = ("error_type", error_name e) ∷ [];
  }

  -- What becomes of the result of the sender: no exception of it goes on.
  abbrev pub after_send : Result (Unit {0}) → Wire → Result (Unit {0}) × Wire
  after_send (ok _) s = (ok tt, s)
  after_send (err e) s = (ok tt, record s { log = failed_event e ∷ s.log })

  abbrev pub send_with : Option Text → Option Text → Text → Exec Wire (Unit {0})
  send_with (some token) (some chat_id) message s =
      let (r, w) = sender token chat_id message s.world in after_send r (record s { world = w })
  send_with _ _ message s = (ok tt, s)

  -- `_send_safely`
  unfoldable pub send_safely : TelegramNotifier → Text → Exec Wire (Unit {0})
  send_safely n message = send_with n.token n.chat_id message

  -- The task that is scheduled, if the notifier is configured.
  unfoldable pub send_async : TelegramNotifier → Text → Option (Exec Wire (Unit {0}))
  send_async n message = if not (is_configured n) then none else some (send_safely n message)

  -- Tasks that have been scheduled, one after the other.
  abbrev pub run_tasks : List (Exec Wire (Unit {0})) → Wire → Wire
  run_tasks [] s = s
  run_tasks (task ∷ tasks) s = run_tasks tasks (task s).1
