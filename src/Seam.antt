-- ===== src/Seam.antt =====
-- mcp/seam.py, the tool's side of the MCP binding (§6.3 to §6.5): the seam between the transport's
-- streams and the MCP session, as a machine on its tables. `Token` names rounds, `Frame` and `State`
-- hold the data, `Call`, `Round`, `Arrival`, `Answer` and `Exchange` the operations, `Run` their
-- sequences.
pub mod Token
pub mod Frame
pub mod State
pub mod Call
pub mod Round
pub mod Arrival
pub mod Answer
pub mod Exchange
pub mod Negotiation
pub mod Run
