-- ===== src/Tests.antt =====
-- The theorems at concrete inputs, one module for each part of the program.
mod PortTests
mod CacheTests
mod PolicyTests
mod SyncTests
mod GroupTests
mod RoundTests
mod EndpointTests
mod NetworkPolicyTests
mod PodTests
mod DatapathTests
mod InstallTests
mod LabelTests
