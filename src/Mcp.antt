-- ===== src/Mcp.antt =====
-- apps/mcp: what the MCP server keeps of its own.
pub mod Downloads
