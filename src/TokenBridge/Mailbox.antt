-- ===== src/TokenBridge/Mailbox.antt =====
-- rita/src/rita_common/token_bridge/mod.rs: the bridge with its mailbox and its futures, in any order
-- of arrival and completion.
use althea_rs.Prelude.{ℕ, ◌≡◌, Bool, true, List, [], ◌∷◌, ◌++◌}
use althea_rs.Num256.{Num256}
use althea_rs.Time.{Instant}
use althea_rs.TokenBridge.Bridge.{TokenBridge, default_bridge, Answers, Effect}
use althea_rs.TokenBridge.Handlers.{
  BridgeSettings, Task, Message, tick, withdraw, handle, run_task, messages_of,
}

-- The bridge, the messages to it, the futures that run, and all that the futures have done.
pub record World : Type 0 where
  pub bridge : TokenBridge
  pub mailbox : List Message
  pub tasks : List Task
  pub log : List Effect

-- A tick or a withdrawal to one of the wanted addresses arrives, the first message is handled, or a
-- future comes to its end. The settings, the time and the answers are any.
pub data Step (num : Num256) (wanted : ℕ → Bool) : World → World → Type 0 where
  ticked : (w : World) → Step num wanted w (record w { mailbox = w.mailbox ++ (tick ∷ []) })
  asked :
      (to amount : ℕ) (withdraw_all : Bool) (w : World)
      → wanted to ≡ true
      → Step num wanted w
          (record w { mailbox = w.mailbox ++ (withdraw to amount withdraw_all ∷ []) })
  handled :
      (settings : BridgeSettings) (now : Instant) (bridge : TokenBridge) (msg : Message)
      (rest : List Message) (tasks : List Task) (log : List Effect)
      → Step num wanted
          (record { bridge = bridge; mailbox = msg ∷ rest; tasks = tasks; log = log })
          (record {
            bridge = (handle settings now msg bridge).0;
            mailbox = rest ++ (handle settings now msg bridge).1;
            tasks = tasks ++ (handle settings now msg bridge).2;
            log = log;
          })
  finished :
      (answers : Answers) (now : Instant) (bridge : TokenBridge) (mailbox : List Message)
      (task : Task) (before after : List Task) (log : List Effect)
      → Step num wanted
          (record {
            bridge = bridge;
            mailbox = mailbox;
            tasks = before ++ (task ∷ after);
            log = log;
          })
          (record {
            bridge = bridge;
            mailbox = mailbox ++ messages_of (run_task num answers now task).1;
            tasks = before ++ after;
            log = log ++ (run_task num answers now task).1;
          })

pub data Reach (num : Num256) (wanted : ℕ → Bool) : World → Type 0 where
  started :
      Reach num wanted (record { bridge = default_bridge; mailbox = []; tasks = []; log = [] })
  next : {v w : World} → Reach num wanted v → Step num wanted v w → Reach num wanted w
