-- ===== src/Tests/Driver.antt =====
-- The theorem on endpoints at a concrete text.
use niova_block_csi.Prelude.{◌<>◌, ◌==◌, ◌||◌, ◌≡◌, ◌↔◌, true}
use niova_block_csi.Go.Exec.{returned}
use niova_block_csi.Driver.{parse_endpoint}
use niova_block_csi.Driver.Endpoint.{parse_endpoint_iff}

parse_endpoint_iff_example :
    (parse_endpoint "tcp://a://b" ≡ returned ("tcp", "a://b"))
    ↔ (("tcp://a://b" ≡ "tcp" <> ("://" <> "a://b")) × (("tcp" == "unix" || "tcp" == "tcp") ≡ true))
parse_endpoint_iff_example = parse_endpoint_iff "tcp://a://b" "tcp" "a://b"
