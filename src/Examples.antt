-- ===== src/Examples.antt =====
-- The theorems at concrete inputs, by the part of the program they are about.
pub mod Data
pub mod Certificates
pub mod Reissues
pub mod Threads
pub mod Serving
pub mod Routing
pub mod Rendering
pub mod Reconciling
pub mod Loops
pub mod Starts
pub mod Systems
pub mod Processes
pub mod Subscribing
