-- ===== src/Agent/Tools.antt =====
-- internal/agent/tools.go: the actions and their handlers.
pub mod Laws
use eventmind.Base.{
  Text, bytes, text_eq, Bool, true, false, ◌++◌, ◌||◌, if◌then◌else◌, ℤ, format_int,
}

-- `type Action string`
abbrev pub Action : Type 0
Action = Text

abbrev pub send_notification_action : Action
send_notification_action = bytes "send_notification"

abbrev pub escalate_ticket_action : Action
escalate_ticket_action = bytes "escalate_ticket"

abbrev pub flag_for_review_action : Action
flag_for_review_action = bytes "flag_for_review"

abbrev pub update_inventory_action : Action
update_inventory_action = bytes "update_inventory"

abbrev pub send_welcome_action : Action
send_welcome_action = bytes "send_welcome_sequence"

-- `validActions` and `Valid`: the keys of the map, all with the value true.
unfoldable pub valid : Action → Bool
valid a =
    text_eq a send_notification_action
    || text_eq a escalate_ticket_action
    || text_eq a flag_for_review_action
    || text_eq a update_inventory_action
    || text_eq a send_welcome_action

pub record ToolResult : Type 0 where
  pub action : Action
  pub success : Bool
  pub details : Text

-- What the tools use of encoding/json and fmt: the field of that name after `json.Unmarshal` of
-- the payload into the tool's struct, its error ignored, and the quoting of `%q`.
pub record Reader : Type 0 where
  pub text_field : Text → Text → Text
  pub int_field : Text → Text → ℤ
  pub quote : Text → Text

module _ (r : Reader) where
  unfoldable pub send_notification : Text → ToolResult
  send_notification payload = record {
    action = send_notification_action;
    success = true;
    details =
        bytes "notification queued for customer " ++ r.text_field payload (bytes "customer_id");
  }

  unfoldable pub escalate_ticket : Text → ToolResult
  escalate_ticket payload = record {
    action = escalate_ticket_action;
    success = true;
    details =
        bytes "ticket "
        ++ (r.text_field payload (bytes "ticket_id")
            ++ (bytes " escalated (priority: "
                ++ (r.text_field payload (bytes "priority") ++ bytes ")")));
  }

  unfoldable pub flag_for_review : Text → ToolResult
  flag_for_review payload = record {
    action = flag_for_review_action;
    success = true;
    details =
        bytes "event flagged for review — payment " ++ r.text_field payload (bytes "payment_id");
  }

  unfoldable pub update_inventory : Text → ToolResult
  update_inventory payload = record {
    action = update_inventory_action;
    success = true;
    details =
        bytes "inventory reorder triggered for SKU "
        ++ (r.text_field payload (bytes "sku")
            ++ (bytes " ("
                ++ (format_int (r.int_field payload (bytes "current_stock"))
                    ++ (bytes " below threshold "
                        ++ (format_int (r.int_field payload (bytes "threshold")) ++ bytes ")")))));
  }

  unfoldable pub send_welcome_sequence : Text → ToolResult
  send_welcome_sequence payload = record {
    action = send_welcome_action;
    success = true;
    details =
        bytes "welcome sequence started for "
        ++ (r.text_field payload (bytes "email")
            ++ (bytes " (plan: " ++ (r.text_field payload (bytes "plan") ++ bytes ")")));
  }

  unfoldable pub no_handler : Action → ToolResult
  no_handler action = record {
    action = action;
    success = false;
    details = bytes "no handler for action " ++ r.quote action;
  }

  -- The `switch` of `executeAction`.
  unfoldable pub execute_action : Action → Text → ToolResult
  execute_action action payload =
      if text_eq action send_notification_action
      then send_notification payload
      else if text_eq action escalate_ticket_action
      then escalate_ticket payload
      else if text_eq action flag_for_review_action
      then flag_for_review payload
      else if text_eq action update_inventory_action
      then update_inventory payload
      else if text_eq action send_welcome_action
      then send_welcome_sequence payload
      else no_handler action
