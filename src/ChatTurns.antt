-- ===== src/ChatTurns.antt =====
-- One turn of a chat, from its claim to its outcome in the ledger
-- (src/tracer_agent/worker/workflows/chat_workflows.py, chat_activities.py and chat_turn.py there,
-- and src/tracer_agent/worker/agents/chat/execution_writer.py).
mod Tables
mod Ended
mod Writer
mod Turn
mod Settled
mod Insertion
mod Redelivery
mod Content
mod Written
mod Activities
mod Execution
mod Lives
mod Seated
mod Tried
mod Attempted
mod Finals
mod Settling
mod Failing
mod Closes
mod Drain
mod DrainEnds
mod Tests
