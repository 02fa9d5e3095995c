-- ===== src/Cache/Reference.antt =====
-- internal/cache/sync.go: the references that the two syncs look up and verify.
use complytime.Base.{String, ◌<>◌, Bool, not, ◌||◌, ◌==◌, if◌then◌else◌}
use complytime.Base.Text.{trim_right_rune}

unfoldable pub build_lookup_ref : String → String → String → String → String
build_lookup_ref registry_host repository tag digest =
    let ref =
      if registry_host == ""
      then repository
      else trim_right_rune b'/' registry_host <> "/" <> repository in
    if not (digest == "")
    then ref <> "@" <> digest
    else if tag == "" || tag == "latest"
    then ref
    else ref <> ":" <> tag

-- The tag and the digest of a version; one of them is empty.
unfoldable pub classify_version : (String → Bool) → String → String × String
classify_version digest_ok version = if digest_ok version then ("", version) else (version, "")

-- The reference that a version selects in a repository of a registry.
abbrev pub version_ref : (String → Bool) → String → String → String → String
version_ref digest_ok registry_host repository version =
    let (tag, digest) = classify_version digest_ok version in
    build_lookup_ref registry_host repository tag digest

-- `if version == "" || version == "latest" { version = remoteVersion }`.
unfoldable pub pin_version : String → String → String
pin_version version remote_version =
    if version == "" || version == "latest" then remote_version else version
