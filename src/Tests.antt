-- ===== src/Tests.antt =====
-- The theorems at concrete inputs, area by area.
mod Data
mod Topics
mod Apns
mod Fcm
mod Services
mod Feedback
mod Operations
mod Pusher
mod Pipeline
mod Timeouts
mod Listener
mod Settings
mod Pushers
mod Firebase
