-- ===== src/Tests.antt =====
-- Runs of the modelled functions on concrete data, and each result applied to some of it.
mod Codes
mod Cards
mod Addresses
mod Polls
mod Operations
mod Consents
mod Downloads
mod Replies
mod Keyboard
mod Labels
mod Areas
mod Dialogs
