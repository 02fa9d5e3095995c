-- ===== src/Registry/Hosts.antt =====
-- What is left of a host when its scheme and a final slash are taken off.
use complytime.Base.{String, ◌<>◌, true, false, ◌≡◌, refl}
use complytime.Base.Text.{
  has_prefix, trim_prefix-append, trim_suffix_rune-append, has_prefix-append,
  trim_prefix_of_not_prefix, has_prefix-append_of_differ, differ,
}
use complytime.Registry.{normalize_host, split_host_scheme}

normalize_host-http :
    (host : String)
    → has_prefix (host <> "/") "https://" ≡ false
    → normalize_host ("http://" <> (host <> "/")) ≡ host
unfolding normalize_host
normalize_host-http host bare =
    rw
      (
        trim_prefix-append "http://" (host <> "/"),
        trim_prefix_of_not_prefix (host <> "/") "https://" bare,
      )
      (trim_suffix_rune-append "/" host)

normalize_host-https : (host : String) → normalize_host ("https://" <> (host <> "/")) ≡ host
unfolding normalize_host
normalize_host-https host =
    rw
      (
        trim_prefix_of_not_prefix ("https://" <> (host <> "/")) "http://" (
            has_prefix-append_of_differ "http://" "https://" (host <> "/") (unfold differ in refl)),
        trim_prefix-append "https://" (host <> "/"),
      )
      (trim_suffix_rune-append "/" host)

-- A host is found again behind either scheme with a slash after it, and the access is insecure
-- exactly for `http://`. Behind `http://` the host must not itself begin with `https://`.
split_host_scheme-scheme :
    (host : String)
    → has_prefix (host <> "/") "https://" ≡ false
    → (split_host_scheme ("http://" <> (host <> "/")) ≡ (host, true))
      × (split_host_scheme ("https://" <> (host <> "/")) ≡ (host, false))
unfolding split_host_scheme
split_host_scheme-scheme host bare = (
  rw (normalize_host-http host bare, has_prefix-append "http://" (host <> "/")),
  rw (
    normalize_host-https host,
    has_prefix-append_of_differ "http://" "https://" (host <> "/") (unfold differ in refl),
  ),
)
