-- ===== src/Cluster/Address.antt =====
-- pkg/model/base.go: `SocketAddress`, its key and its identity. A port is a number.
use dubbo_go_pixiu.Prelude.{ℕ, Bool, false, ◌&&◌, List, [], ◌∷◌, ◌++◌, ◌==◌}
use dubbo_go_pixiu.Prelude.Text.{Text, text_eq}
use dubbo_go_pixiu.Prelude.Decimal.{itoa}

pub record SocketAddress : Type 0 where
  pub address : Text
  pub port : ℕ
  pub resolver_name : Text
  pub domains : List Text
  pub certs_dir : Text

-- `GetAddress`.
unfoldable pub get_address : SocketAddress → Text
get_address a = elim a.domains [ domain ∷ _ ↦ domain | [] ↦ a.address ++ b':' ∷ itoa a.port ]

abbrev pub same_upstream : List Text → List Text → SocketAddress → SocketAddress → Bool
same_upstream (d ∷ _) (e ∷ _) a b = text_eq d e
same_upstream (_ ∷ _) [] a b = false
same_upstream [] (_ ∷ _) a b = false
same_upstream [] [] a b = text_eq a.address b.address && a.port == b.port

-- `Equal`.
unfoldable pub address_equal : SocketAddress → SocketAddress → Bool
address_equal a b = same_upstream a.domains b.domains a b

-- What `Equal` compares: the first domain, or the address with its port.
pub data Upstream : Type 0 where
  by_domain : Text → Upstream
  by_address : Text → ℕ → Upstream

abbrev pub upstream_in : List Text → SocketAddress → Upstream
upstream_in (d ∷ _) a = by_domain d
upstream_in [] a = by_address a.address a.port

abbrev pub upstream : SocketAddress → Upstream
upstream a = upstream_in a.domains a
