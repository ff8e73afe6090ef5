-- ===== src/Tests.antt =====
-- Concrete runs of the models, one file for each part.
mod BuildQueues
mod Files
mod Transfers
mod RangeLists
mod Slaves
mod Pages
mod Juggling
mod Conversations
mod Imports
mod Changelog
mod Logs
mod Packages
mod Requests
mod Controls
mod Replacing
