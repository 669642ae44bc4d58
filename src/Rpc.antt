-- ===== src/Rpc.antt =====
-- The JSON-RPC server of include/lsp/JsonRpcServer.h and include/lsp/RequestContext.h: request
-- contexts and their cancellation, the handling of one message, and the loop of reader and worker.
pub mod Defs
pub mod Cancellation
pub mod Replies
pub mod Loop
mod Samples
