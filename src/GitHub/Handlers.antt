-- ===== src/GitHub/Handlers.antt =====
-- internal/github/process.go and revise.go: the handlers of comments and of closed pull requests.
mod Revise
mod Comments
mod Pulls
unfoldable pub use Revise.*
unfoldable pub use Comments.*
unfoldable pub use Pulls.*
