-- ===== src/Tests.antt =====
-- Runs of the models at concrete inputs, and the theorems applied there.
mod RingTests
mod GraphTests
mod NodeTests
mod MetricsTests
mod SourceTests
mod AgentTests
mod PcapTests
mod PsutilTests
mod PluginTests
mod OvsdbTests
