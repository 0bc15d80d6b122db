-- ===== src/Agent/Prompt.antt =====
-- internal/agent/agent.go: `buildPrompt`.
use eventmind.Base.{Text, bytes, ◌++◌}
use eventmind.Events.{Event}

prompt_head : Text
prompt_head =
    bytes
      "You are an AI agent processing business events. Analyze the event and decide the best action.\n\nEvent type: "

prompt_middle : Text
prompt_middle = bytes "\nEvent payload: "

prompt_actions : Text
prompt_actions =
    bytes
      "\n\nAvailable actions:\n- send_notification     notify the customer about this event\n- escalate_ticket       escalate a support issue to a human agent\n- flag_for_review       flag the event for manual review\n"
    ++ bytes
        "- update_inventory      trigger an inventory adjustment or reorder\n- send_welcome_sequence start the onboarding email sequence for new users\n\n"

prompt_format : Text
prompt_format =
    bytes
      "Reply with valid JSON only — no markdown, no extra text:\n{\"action\": \"<one of the actions above>\", \"reasoning\": \"<one sentence why>\"}"

unfoldable pub build_prompt : Event → Text
unfolding prompt_head prompt_middle prompt_actions prompt_format
build_prompt ev =
    prompt_head ++ (ev.type ++ (prompt_middle ++ (ev.payload ++ (prompt_actions ++ prompt_format))))
