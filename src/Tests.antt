-- ===== src/Tests.antt =====
-- Runs of the models on small inputs.
mod Common
mod Server
mod Transfer
mod Login
mod Joining
mod Entering
mod Acl
mod Tools
mod Start
mod Sending
mod Giving
