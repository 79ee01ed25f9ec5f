-- ===== src/Router/Trie.antt =====
-- pkg/common/router/trie: the trie of route paths.
pub mod Node
pub mod Put
pub mod Match
pub mod Paths
pub mod PutSteps
pub mod PutRoutes
pub mod PutStores
pub mod MatchSound
pub mod MatchComplete
pub mod Get
pub mod Api
pub mod GetRoutes
pub mod RemoveRoutes
pub mod Laws
mod Tests
