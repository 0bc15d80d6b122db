-- ===== src/Agent/Tools/Laws.antt =====
-- The map of valid actions and the `switch` over the actions agree.
use eventmind.Base.{◌≡◌, ◌↔◌, true, Text, text_eq_iff, arith}
use eventmind.Agent.Tools.{
  Action, send_notification_action, escalate_ticket_action, flag_for_review_action,
  update_inventory_action, send_welcome_action, valid, Reader, send_notification, escalate_ticket,
  flag_for_review, update_inventory, send_welcome_sequence, no_handler, execute_action,
}

-- A tool succeeds exactly for the actions that the validation accepts, and its result names the
-- action that was asked for.
pub execute_action-valid :
    (r : Reader) (action : Action) (payload : Text)
    → (((execute_action r action payload).success ≡ true) ↔ (valid action ≡ true))
      × ((execute_action r action payload).action ≡ action)
unfolding execute_action valid send_notification escalate_ticket flag_for_review update_inventory
    send_welcome_sequence no_handler
execute_action-valid r action payload = (
  (λ h. ground arith, λ h. ground arith),
  ground (
    arith,
    text_eq_iff action send_notification_action,
    text_eq_iff action escalate_ticket_action,
    text_eq_iff action flag_for_review_action,
    text_eq_iff action update_inventory_action,
    text_eq_iff action send_welcome_action,
  ),
)
