-- ===== src/Policy/Watcher.antt =====
-- internal/policy/watcher.go: the store of the policy in force, reloaded when the file changes. The file
-- is read by the caller of a step: a text, or nothing on an error. The digest of a text, which the code
-- keeps as 32 bytes, is the loader's hash. OnReload and OnError are the report of a step.
pub mod Reload
use agent_cred_broker.Prelude.{
  Bool, Option, none, some, List, [], ◌∷◌, String, str_eq, if◌then◌else◌,
}
use agent_cred_broker.Policy.{Policy}
use agent_cred_broker.Policy.Parse.{Loader, Checked, fine, faulty, parse}

pub record Watcher : Type 0 where
  pub current : Policy
  pub last_sum : String

-- What a step tells main: nothing, the old and the next policy, or an error with the policy retained.
pub data Report : Type 0 where
  quiet : Report
  reloaded : Policy → Policy → Report
  failed : Policy → Report

-- NewStore, for a file with this text.
unfoldable pub new_store : Loader → String → Option Watcher
new_store loader raw = elim (parse loader raw) [
  | faulty e ↦ none
  | fine p ↦ some (record { current = p; last_sum = loader.hash raw })
]

-- A file that does not parse is remembered, so that it is reported once.
unfoldable pub take_over : String → Checked Policy → Watcher → Report × Watcher
take_over sum (faulty e) w = (failed w.current, record w { last_sum = sum })
take_over sum (fine next) w = (reloaded w.current next, record { current = next; last_sum = sum })

unfoldable pub reload_if_changed : Loader → Option String → Watcher → Report × Watcher
reload_if_changed loader none w = (failed w.current, w)
reload_if_changed loader (some raw) w =
    if str_eq (loader.hash raw) w.last_sum
    then (quiet, w)
    else take_over (loader.hash raw) (parse loader raw) w

-- Watch, over the ticks until it is done.
unfoldable pub watch : Loader → List (Option String) → Watcher → Watcher
watch loader [] w = w
watch loader (r ∷ rs) w = watch loader rs (reload_if_changed loader r w).1
