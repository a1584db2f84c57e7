-- ===== src/Driver.antt =====
-- pkg/driver/driver.go: the endpoint of the driver and the identity service.
pub mod Endpoint
pub mod Run
pub mod Serve
use niova_block_csi.Prelude.{
  Bool, String, List, [], ◌∷◌, ◌<>◌, ◌==◌, ◌||◌, ◌≡◌, refl, Option, none, some, if◌then◌else◌,
}
use niova_block_csi.Go.Error.{plain}
use niova_block_csi.Go.Exec.{Reply, returned, failed}
use niova_block_csi.Go.Text.{cut_prefix, split_two}

unfoldable pub parse_endpoint : String → Reply (String × String)
parse_endpoint endpoint = elim (split_two "://" endpoint) [
  | none ↦ failed (plain ("invalid endpoint format: " <> endpoint))
  | some (proto, addr) ↦
      if proto == "unix" || proto == "tcp"
      then returned (proto, addr)
      else failed (plain ("unsupported protocol: " <> proto))
]

tests_of_endpoint :
    (parse_endpoint "unix:///csi/csi.sock" ≡ returned ("unix", "/csi/csi.sock"))
    × (parse_endpoint "tcp://a://b" ≡ returned ("tcp", "a://b"))
    × (parse_endpoint "http://x" ≡ failed (plain "unsupported protocol: http"))
    × (parse_endpoint "unix:/x" ≡ failed (plain "invalid endpoint format: unix:/x"))
unfolding parse_endpoint split_two cut_prefix
tests_of_endpoint = (refl, refl, refl, refl)

pub record IdentityServer : Type 0 where
  pub name : String
  pub version : String

unfoldable pub new_identity_server : String → String → IdentityServer
new_identity_server name version = record { name = name; version = version }

-- The services of a plugin that `GetPluginCapabilities` may name.
pub data PluginService : Type 0 where
  controller_service volume_accessibility_constraints : PluginService

-- The name and the version of the answer.
unfoldable get_plugin_info : IdentityServer → String × String
get_plugin_info server = (server.name, server.version)

unfoldable get_plugin_capabilities : IdentityServer → List PluginService
get_plugin_capabilities server = controller_service ∷ []

-- The answer of `Probe` has no fields, so `ready` is left out: the plugin is ready.
unfoldable probe : IdentityServer → Option Bool
probe server = none
