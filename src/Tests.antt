-- ===== src/Tests.antt =====
-- Runs of the program on small inputs.
mod Fixtures
mod Serving
mod Ends
mod Lifecycles
mod Networks
mod Balancers
mod Groups
mod Machines
mod Controllers
mod Webhooks
mod Instances
mod Patches
mod Deletions
mod Scopes
