-- ===== src/Tests.antt =====
-- Concrete runs of the theorems: small stores, buffers and providers at which their hypotheses
-- hold.
mod Remote
mod Calls
mod Buffer
mod Runtime
mod Dap
mod Ide
mod Security
mod Adapters
