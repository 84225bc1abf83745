-- ===== src/Tests.antt =====
-- Theorems at concrete inputs.
mod Data
mod FirewallTests
mod RenderTests
mod UserTests
mod DscpTests
mod VxlanTests
mod MqvpnTests
mod XrayTests
mod AccountTests
mod MptcpTests
mod ShadowsocksTests
mod V2rayTests
mod SettingsTests
mod MetricsTests
mod ProxyTests
