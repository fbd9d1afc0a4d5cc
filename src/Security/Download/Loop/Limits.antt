-- ===== src/Security/Download/Loop/Limits.antt =====
-- How much `SafeDownloader` sends and returns, and which exceptions leave it.
use ark_mcp.Prelude.{◌⊎◌, none, ℕ, ◌≤◌, String, ◌≡◌, length, Holds}
use ark_mcp.Security.Download.{PinnedRequest, DownloadedMedia}
use ark_mcp.Security.Download.Loop.{Config, Outcome}
use ark_mcp.Security.Download.Loop.Bounds.{IsDeclared, IsUndecodable}

module _ {W : Type 0} (c : Config W) where
  -- Why a ValueError may be raised: there is no limit, or a redirect names what `urljoin` refuses.
  abbrev pub HasBadArgument : Type 0
  HasBadArgument =
      (c.max_bytes ≡ 0) ⊎ ((url : String) × (location : String) × (c.urljoin url location ≡ none))

  -- Why httpx may raise what is no TransportError: the remote side has an answer of that kind.
  abbrev pub HasBadAnswer : Type 0
  HasBadAnswer = (q : PinnedRequest) × (w : W) × IsUndecodable (c.answer q w).1

  -- At most `n` requests are sent in all, the body fits, and each error that is raised has a reason.
  pub record IsWithin (n : ℕ) (o : Outcome W) : Type 0 where
    pub sent_le : length o.0.sent ≤ n
    pub body_le : Holds (λ (m : DownloadedMedia). length m.body ≤ c.max_bytes) o.1
    pub declared : IsDeclared HasBadArgument HasBadAnswer o.1
