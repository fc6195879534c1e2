-- ===== src/Examples.antt =====
-- The theorems at concrete inputs, and runs of the models.
mod Worker
mod Pool
mod Config
mod Middleware
mod Ratelimit
mod Etag
mod Guards
mod Download
mod App
mod Upload
mod Sessions
mod Dev
mod Command
