-- ===== src/Broker/Reload.antt =====
-- cmd/broker/main.go: OnReload and OnError, which sign what a reload of the policy did, and the event of the
-- start. The text of a reload's error is an argument.
pub mod Signed
use agent_cred_broker.Prelude.{Option, none, some, List, [], ◌∷◌, String}
use agent_cred_broker.Audit.{
  Event, event, text, texts, policy_reloaded, policy_reload_failed, broker_started,
}
use agent_cred_broker.Audit.Codec.{Codec}
use agent_cred_broker.Policy.{Policy}
use agent_cred_broker.Policy.Listing.{subject_keys, scope_names}
use agent_cred_broker.Policy.Parse.{Loader}
use agent_cred_broker.Policy.Watcher.{Watcher, Report, quiet, reloaded, failed, reload_if_changed}
use agent_cred_broker.Server.{Trail, record_event}
use agent_cred_broker.Broker.{diff_sorted}

abbrev pub reloaded_event : Policy → Policy → Event
reloaded_event old next =
    let subjects = diff_sorted (subject_keys old) (subject_keys next) in
    let scopes = diff_sorted (scope_names old) (scope_names next) in
    event policy_reloaded "" none none
      (("old_policy_hash", text old.hash)
        ∷ ("new_policy_hash", text next.hash)
        ∷ ("subjects_added", texts subjects.0)
        ∷ ("subjects_removed", texts subjects.1)
        ∷ ("scopes_added", texts scopes.0)
        ∷ ("scopes_removed", texts scopes.1)
        ∷ [])
      []

abbrev pub failed_event : Policy → String → Event
failed_event retained why =
    event policy_reload_failed "" none none
      (("retained_policy_hash", text retained.hash) ∷ ("error", text why) ∷ []) []

-- The callbacks, on the report of a step of Watch.
unfoldable pub sign_report : Codec → String → Report → Trail → Trail
sign_report c why quiet t = t
sign_report c why (reloaded old next) t = (record_event c (reloaded_event old next) t).1
sign_report c why (failed retained) t = (record_event c (failed_event retained why) t).1

-- One tick of Watch, with the callbacks.
unfoldable pub tick : Codec → Loader → String → Option String → Watcher × Trail → Watcher × Trail
tick c loader why raw (w, t) =
    let (report, w') = reload_if_changed loader raw w in (w', sign_report c why report t)

unfoldable pub emit_started : Codec → String → String → Policy → Trail → Trail
emit_started c kid public_key p t =
    (record_event c
      (event broker_started "" none none
        (("policy_hash", text p.hash) ∷ ("kid", text kid) ∷ ("public_key", text public_key) ∷ [])
        [])
      t).1
