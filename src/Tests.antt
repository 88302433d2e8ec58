-- ===== src/Tests.antt =====
-- Runs of the modelled methods on concrete inputs, and the theorems at such inputs.
mod Setting
mod Auth
mod Agent
mod Access
mod Oauth
mod Mcp
mod Pages
mod Transcript
mod Terminal
mod Release
