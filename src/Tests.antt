-- ===== src/Tests.antt =====
-- Concrete runs of the definitions, and the theorems at concrete inputs.
mod Sample
mod Routing
mod Table
mod Writers
mod Serving
mod Startup
mod Forwarding
mod Reload
mod Holding
mod Relaying
mod Relisting
mod Logging
mod Arguments
mod Goroutines
mod Overlapping
mod Tables
mod Fronts
