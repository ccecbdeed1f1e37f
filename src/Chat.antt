-- ===== src/Chat.antt =====
-- ui/src/pages/playground/useChatStream.ts: the chat of the playground. Its children are the reader
-- of the event stream (Sse), the hook's state with `send`, `stop`, `clear` and the outcomes of a
-- request (Requests), and what is proved of both. Times are whole milliseconds of the hook's clock.
pub mod Sse
pub mod Requests
pub mod Chunks
pub mod Flags
pub mod Turns
pub mod Send
mod Tests
