-- ===== src/Version.antt =====
-- `version.go`: the version of the protocol.
use sohocloud_protocol.Prelude.{ℕ, List}
use sohocloud_protocol.Prelude.Bytes.{codes}

abbrev pub version : List ℕ
version = codes "v0"
