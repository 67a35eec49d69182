-- ===== src/Capability/Presets.antt =====
-- internal/capability/registry.go: the known capabilities, and presets of them by name.
pub mod Sound
use gigi_dc.Prelude.{String, ◌==◌, Option, none, some, List, [], ◌∷◌, if◌then◌else◌}
use gigi_dc.Capability.{Capability}

pub record Preset : Type 0 where
  pub name : String
  pub capabilities : List Capability

unfoldable pub known_capabilities : List Capability
known_capabilities =
    "capability.manage" ∷ "plugin.install" ∷ "job.admin" ∷ "job.read" ∷ "job.schedule" ∷ "job.write"
    ∷ "web.search" ∷ "web.fetch" ∷ "agent.analytics" ∷ "agent.reply_latency.manage"
    ∷ "memory.read.guild" ∷ "memory.manage.guild" ∷ "relay.dispatch" ∷ "relay.receive"
    ∷ "llm.provider.write" ∷ "llm.provider.test" ∷ "llm.provider.select" ∷ []

abbrev preset : String → List Capability → Preset
preset name capabilities = record { name = name; capabilities = capabilities }

unfoldable pub known_presets : List Preset
known_presets =
    preset "gigi-admin" (
      "capability.manage" ∷ "plugin.install" ∷ "job.admin" ∷ "job.read" ∷ "job.schedule"
      ∷ "job.write" ∷ "web.search" ∷ "web.fetch" ∷ "agent.analytics" ∷ "agent.reply_latency.manage"
      ∷ "memory.read.guild" ∷ "memory.manage.guild" ∷ "llm.provider.write" ∷ "llm.provider.test"
      ∷ "llm.provider.select" ∷ [])
    ∷ preset "plugin-manager" ("plugin.install" ∷ [])
    ∷ preset "job-operator" ("job.read" ∷ "job.schedule" ∷ "job.write" ∷ [])
    ∷ preset "web-reader" ("web.search" ∷ "web.fetch" ∷ [])
    ∷ preset "memory-manager" ("memory.read.guild" ∷ "memory.manage.guild" ∷ [])
    ∷ preset "llm-manager" ("llm.provider.write" ∷ "llm.provider.test" ∷ "llm.provider.select" ∷ [])
    ∷ preset "memory-reader" ("memory.read.guild" ∷ [])
    ∷ preset "relay-user" ("relay.dispatch" ∷ "relay.receive" ∷ [])
    ∷ []

-- The loop of `PresetCapabilities`.
unfoldable pub find_preset : List Preset → String → Option (List Capability)
find_preset [] name = none
find_preset (p ∷ ps) name = if p.name == name then some p.capabilities else find_preset ps name

unfoldable pub preset_capabilities : String → Option (List Capability)
preset_capabilities name = find_preset known_presets name
