-- ===== src/Artifacts/Filesystem/Copying/Trusted.antt =====
-- Which hosts a copy reaches.
use ark_mcp.Prelude.{
  String, ◌≡◌, refl, Bool, true, false, List, [], if◌then◌else◌, all, All, ok, err,
}
use ark_mcp.Security.Download.Loop.{Outcome, download}
use ark_mcp.Security.Download.Loop.Pinning.{IsPinned, download-sends-IsPinned}
use ark_mcp.Artifacts.Filesystem.{Files, StoreCall}
use ark_mcp.Artifacts.Filesystem.Copying.{
  is_trusted, trusted_host_policy, Remote, config_of, trip_of, copy_trusted, after_download,
  copy_from_trusted_url, other_error, starts_with_dot,
}
use ark_mcp.Prelude.Codes.{codes}

true_ne_false : {A : Type 0} → true ≡ false → A
true_ne_false {A} e = absurd (bad e)
  where
    bad : true ≡ false → ⊥
    bad q = cc

module _ {W : Type 0} (remote : Remote W) (safe_message : String) (call : StoreCall)
    (url : String) where
  after_download-trip :
      (o : Outcome W) (files : Files)
      → (after_download remote safe_message call url o files).0 ≡ o.0
  unfolding after_download
  after_download-trip (t, ok media) files = refl
  after_download-trip (t, err e) files = refl

  -- Every request of a copy goes over https to a public address, in the name of a host that ends with
  -- one of the provider's suffixes or of those that the caller adds, whatever redirects the remote side
  -- answers. A suffix that does not start with a dot is refused before any request.
  pub copy_from_trusted_url-sends-IsPinned :
      (extra : List String) (world : W) (files : Files)
      → All
          (IsPinned (is_trusted extra))
          (copy_from_trusted_url remote safe_message call url extra world files).0.sent
        × (all (λ suffix. starts_with_dot (codes suffix)) extra ≡ false
            → (copy_from_trusted_url remote safe_message call url extra world files).0.sent ≡ [])
  unfolding copy_from_trusted_url trusted_host_policy copy_trusted after_download
  copy_from_trusted_url-sends-IsPinned extra world files =
      by_test (all (λ suffix. starts_with_dot (codes suffix)) extra)
    where
      by_test :
          (b : Bool)
          → All
              (IsPinned (is_trusted extra))
              (copy_trusted remote safe_message call url
                (if b
                  then ok (is_trusted extra)
                  else err (other_error "Extra trusted host suffixes must start with a dot."))
                world
                files).0.sent
            × (b ≡ false
                → (copy_trusted remote safe_message call url
                    (if b
                      then ok (is_trusted extra)
                      else err (other_error "Extra trusted host suffixes must start with a dot."))
                    world
                    files).0.sent
                  ≡ [])
      by_test true =
          rw
            (after_download-trip
              (download (config_of remote call.media_type (is_trusted extra)) url (trip_of world))
              files)
            (
              download-sends-IsPinned (config_of remote call.media_type (is_trusted extra)) url
                  world,
              (λ e. true_ne_false e),
            )
      by_test false = (tt, (λ e. refl))
