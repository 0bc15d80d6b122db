-- ===== src/Messaging/Reports.antt =====
-- The goroutine of `NewProducer` in internal/messaging/producer.go that drains the delivery reports
-- of the client. A message that the client took may still fail to be delivered: it is logged.
use eventmind.Base.{Text, Option, none, some, List, [], ◌∷◌, ◌++◌}

-- An event of the client: a message with its topic and the error of its delivery, or another one.
pub data Report : Type 0 where
  delivery : Text → Option Text → Report
  other : Report

-- The lines of the log, each the error and the topic of a message.
unfoldable pub report_line : Report → List (Text × Text)
report_line (delivery topic none) = []
report_line (delivery topic (some e)) = (e, topic) ∷ []
report_line other = []

unfoldable pub drain : List Report → List (Text × Text)
unfolding report_line
drain [] = []
drain (r ∷ reports) = report_line r ++ drain reports
